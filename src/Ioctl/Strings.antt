-- ===== src/Ioctl/Strings.antt =====
-- The string that ioctl_test.c takes from the user: cut to 255 bytes, whatever the stack held.
use kernel_programming.Base.{
  ℕ, zero, suc, ◌<◌, ◌≡◌, refl, inl, inr, List, [], ◌∷◌, ◌++◌, ◌==◌, Bool-cases, length, take,
  overlay, splice, length-splice, slice-splice_self, until_nul, strlen-until_nul, IsString, arith,
}

bounded_text :
    (n : ℕ) (s buf : List ℕ)
    → n < length buf
    → until_nul (splice n (0 ∷ []) (overlay (take n (s ++ 0 ∷ [])) buf)) ≡ take n (until_nul s)
unfolding splice overlay until_nul
bounded_text n s [] h = absurd (omega arith)
bounded_text zero s (b ∷ buf) h = refl
bounded_text (suc n) [] (b ∷ buf) h = refl
bounded_text (suc n) (c ∷ s) (b ∷ buf) h = elim (Bool-cases (c == 0)) [
  | inl e ↦ rw e
  | inr e ↦ rw (e, bounded_text n s buf (omega arith))
]

-- The buffer after strncpy_from_user and the NUL behind it is a string, the user's cut short.
pub bounded_IsString :
    (n : ℕ) (s buf : List ℕ)
    → n < length buf
    → IsString (splice n (0 ∷ []) (splice 0 (take n (s ++ 0 ∷ [])) buf))
      × (until_nul (splice n (0 ∷ []) (splice 0 (take n (s ++ 0 ∷ [])) buf)) ≡ take n (until_nul s))
unfolding splice
bounded_IsString n s buf h =
    let buf1 : List ℕ = splice 0 (take n (s ++ 0 ∷ [])) buf in
    let sized : length buf1 ≡ length buf = length-splice 0 (take n (s ++ 0 ∷ [])) buf in
    let (string, _) =
      strlen-until_nul n (splice n (0 ∷ []) buf1)
        (slice-splice_self n (0 ∷ []) buf1 (omega (arith, sized))) in
    (string, bounded_text n s buf h)
