-- ===== src/Base/Text.antt =====
-- C strings in memory: `strlen` reads to the first NUL, and faults where the object has none.
use Prim.Native.Nat.{ℕ, zero, suc, ◌+◌, ◌≤◌, ◌<◌}
use mathlib.Core.Path.{◌≡◌, refl, ap, ◌∙◌}
use mathlib.Core.Option.{none, some}
use mathlib.Core.Bool.{Bool, true, false, ◌&&◌}
use mathlib.Core.List.{List, [], ◌∷◌, ◌++◌, append_assoc}
use native.Mathlib.Omega.{arith}
use Prim.Native.Char.{code}
use Prim.Native.String.{String}
use kernel_programming.Base.Tests.{◌==◌, if◌then◌else◌, Bool-cases}
use kernel_programming.Base.Lists.{replicate, length-replicate, length, take, drop, length-append}
use kernel_programming.Base.Results.{Access, ◌>>=◌}
use kernel_programming.Base.Bytes.{
  slice, overlay, splice, splice-append, write_at, write_at-within, length-splice,
}
use mathlib.Core.Logic.{inl, inr}

unfoldable pub strlen : List ℕ → Access ℕ
strlen [] = none
strlen (c ∷ cs) = if c == 0 then some 0 else strlen cs >>= λ n. some (suc n)

-- The string that an object holds: what stands before the first NUL.
unfoldable pub until_nul : List ℕ → List ℕ
until_nul [] = []
until_nul (c ∷ cs) = if c == 0 then [] else c ∷ until_nul cs

pub length-until_nul : (cs : List ℕ) → length (until_nul cs) ≤ length cs
unfolding until_nul
length-until_nul [] = omega arith
length-until_nul (c ∷ cs) = ground (arith, length-until_nul cs)

-- With a NUL at position `p` the string ends there or before, and `strlen` finds its length.
pub strlen-until_nul :
    (p : ℕ) (cs : List ℕ)
    → slice p 1 cs ≡ 0 ∷ []
    → (strlen cs ≡ some (length (until_nul cs))) × (length (until_nul cs) ≤ p)
unfolding strlen until_nul slice
strlen-until_nul zero [] h = cc
strlen-until_nul zero (c ∷ cs) h = ground arith
strlen-until_nul (suc p) [] h = cc
strlen-until_nul (suc p) (c ∷ cs) h = ground (arith, strlen-until_nul p cs h)

pub take-until_nul : (cs : List ℕ) → take (length (until_nul cs)) cs ≡ until_nul cs
unfolding until_nul
take-until_nul [] = refl
take-until_nul (c ∷ cs) = elim (Bool-cases (c == 0)) [
  | inl e ↦ rw e
  | inr e ↦ rw e (ap (◌∷◌ c) (take-until_nul cs))
]

-- A NUL behind `xs` ends the string within `xs`, whatever follows.
pub until_nul-append : (xs ys : List ℕ) → until_nul (xs ++ 0 ∷ ys) ≡ until_nul xs
unfolding until_nul
until_nul-append [] ys = refl
until_nul-append (x ∷ xs) ys = rw (until_nul-append xs ys)

pub overlay-append_drop {ℓ} :
    {A : Type ℓ} (src dst : List A)
    → length src ≤ length dst
    → overlay src dst ≡ src ++ drop (length src) dst
unfolding overlay
overlay-append_drop [] dst h = refl
overlay-append_drop (s ∷ src) [] h = absurd (omega arith)
overlay-append_drop (s ∷ src) (d ∷ dst) h = ap (◌∷◌ s) (overlay-append_drop src dst (omega arith))

-- Within the string, a range of the object is a range of the string.
pub slice-until_nul :
    (o n : ℕ) (cs : List ℕ)
    → o + n ≤ length (until_nul cs)
    → slice o n cs ≡ slice o n (until_nul cs)
unfolding until_nul slice
slice-until_nul zero zero cs h = refl
slice-until_nul zero (suc n) [] h = refl
slice-until_nul zero (suc n) (c ∷ cs) h = elim (Bool-cases (c == 0)) [
  | inl e ↦ absurd (let g : suc n ≤ length (until_nul (c ∷ cs)) = omega arith in ground arith)
  | inr e ↦ rw e (ap (◌∷◌ c) (slice-until_nul zero n cs (ground arith)))
]
slice-until_nul (suc o) n [] h = refl
slice-until_nul (suc o) n (c ∷ cs) h = elim (Bool-cases (c == 0)) [
  | inl e ↦ absurd (ground arith)
  | inr e ↦ rw e (slice-until_nul o n cs (ground arith))
]

-- A string and a NUL behind it, written to the front of an object.
pub until_nul-splice :
    (n : ℕ) (src dst : List ℕ)
    → length src ≡ n
    → n + 1 ≤ length dst
    → until_nul (splice n (0 ∷ []) (splice 0 src dst)) ≡ until_nul src
unfolding splice
until_nul-splice n src dst h room =
    rw
      (
        ← splice-append 0 n src (0 ∷ []) dst (omega (arith, h)),
        overlay-append_drop (src ++ 0 ∷ []) dst (omega (arith, length-append src (0 ∷ []), h)),
        append_assoc,
      )
      (until_nul-append src (drop (length (src ++ 0 ∷ [])) dst))

-- strcpy(dst, src): the bytes of the string and its NUL.
unfoldable pub strcpy : (dst src : List ℕ) → Access (List ℕ)
strcpy dst src = strlen src >>= λ n. write_at dst 0 (take (n + 1) src)

-- The object holds a string: there is a NUL, and `strlen` stops at the first.
abbrev pub IsString : List ℕ → Type 0
IsString cs = strlen cs ≡ some (length (until_nul cs))

suc-inj : (o : Access ℕ) (m : ℕ) → (o >>= λ n. some (suc n)) ≡ some (suc m) → o ≡ some m
suc-inj none m h = cc
suc-inj (some n) m h = let e : n ≡ m = ground arith in ap some e

pub take-until_nul_end :
    (cs : List ℕ) → IsString cs → take (length (until_nul cs) + 1) cs ≡ until_nul cs ++ 0 ∷ []
unfolding strlen until_nul
take-until_nul_end [] h = cc
take-until_nul_end (c ∷ cs) h = elim (Bool-cases (c == 0)) [
  | inl e ↦ let z : c ≡ 0 = ground arith in rw (e, z) refl
  | inr e ↦
      let rest : IsString cs = suc-inj (strlen cs) (length (until_nul cs)) (rw e at h) in
      let more : suc (length (until_nul cs)) + 1 ≡ suc (length (until_nul cs) + 1) = omega arith in
      rw (e, more) (ap (◌∷◌ c) (take-until_nul_end cs rest))
]

pub until_nul_twice : (cs : List ℕ) → until_nul (until_nul cs) ≡ until_nul cs
unfolding until_nul
until_nul_twice [] = refl
until_nul_twice (c ∷ cs) = elim (Bool-cases (c == 0)) [
  | inl e ↦ rw e
  | inr e ↦ rw (e, e, until_nul_twice cs)
]

-- A text and a NUL in front of anything make a string.
pub IsString-append : (xs ys : List ℕ) → IsString (xs ++ 0 ∷ ys)
unfolding strlen until_nul
IsString-append [] ys = refl
IsString-append (x ∷ xs) ys = elim (Bool-cases (x == 0)) [
  | inl e ↦ rw e
  | inr e ↦ rw (e, IsString-append xs ys)
]

-- A copy of a string that fits keeps the size of the object, and the string.
pub strcpy_lem :
    (dst src : List ℕ)
    → IsString src
    → length (until_nul src) + 1 ≤ length dst
    → (dst' : List ℕ) × (strcpy dst src ≡ some dst')
      × (length dst' ≡ length dst)
      × IsString dst'
      × (until_nul dst' ≡ until_nul src)
unfolding strcpy splice overlay
strcpy_lem dst src h room =
    let text : List ℕ = until_nul src in
    let copied : List ℕ = text ++ 0 ∷ [] in
    let n : length copied ≡ length text + 1 = length-append text (0 ∷ []) in
    let dst' : List ℕ = text ++ 0 ∷ drop (length copied) dst in
    let written : splice 0 copied dst ≡ dst' =
      overlay-append_drop copied dst (omega (arith, n))
      ∙ append_assoc text (0 ∷ []) (drop (length copied) dst) in
    (
      splice 0 copied dst,
      rw (h, take-until_nul_end src h, write_at-within dst 0 copied (omega (arith, n))),
      length-splice 0 copied dst,
      rw written (IsString-append text (drop (length copied) dst)),
      rw written (until_nul-append text (drop (length copied) dst) ∙ until_nul_twice src),
    )

-- The characters of a literal: its bytes, where it is ASCII.
abbrev pub codes : String → List ℕ
codes String.[] = []
codes (String.◌∷◌ c s) = code c ∷ codes s

-- strcmp(s, t) == 0
unfoldable pub strcmp_equal : (s t : List ℕ) → Bool
strcmp_equal [] [] = true
strcmp_equal [] (d ∷ t) = false
strcmp_equal (c ∷ s) [] = false
strcmp_equal (c ∷ s) (d ∷ t) = (c == d) && strcmp_equal s t

-- The `n` bytes that strncpy(dst, src, n) writes: the string, and NULs behind it.
unfoldable pub strncpy_bytes : (n : ℕ) (src : List ℕ) → List ℕ
strncpy_bytes zero src = []
strncpy_bytes (suc n) [] = 0 ∷ strncpy_bytes n []
strncpy_bytes (suc n) (c ∷ src) =
    let rest : List ℕ = strncpy_bytes n src in if c == 0 then replicate (suc n) 0 else c ∷ rest

pub length-strncpy_bytes : (n : ℕ) (src : List ℕ) → length (strncpy_bytes n src) ≡ n
unfolding strncpy_bytes
length-strncpy_bytes zero src = refl
length-strncpy_bytes (suc n) [] = ap suc (length-strncpy_bytes n [])
length-strncpy_bytes (suc n) (c ∷ src) = elim (Bool-cases (c == 0)) [
  | inl e ↦ rw e (length-replicate (suc n) 0)
  | inr e ↦ rw e (ap suc (length-strncpy_bytes n src))
]

-- The copy in an object, with a NUL at its last byte.
pub cut_text :
    (n : ℕ) (src dst : List ℕ)
    → n < length dst
    → until_nul (splice n (0 ∷ []) (overlay (strncpy_bytes (suc n) src) dst))
      ≡ take n (until_nul src)
unfolding splice overlay until_nul strncpy_bytes replicate
cut_text n src [] h = absurd (omega arith)
cut_text zero [] (d ∷ dst) h = refl
cut_text (suc n) [] (d ∷ dst) h = refl
cut_text zero (c ∷ src) (d ∷ dst) h = elim (Bool-cases (c == 0)) [ inl e ↦ rw e | inr e ↦ rw e ]
cut_text (suc n) (c ∷ src) (d ∷ dst) h = elim (Bool-cases (c == 0)) [
  | inl e ↦ rw e
  | inr e ↦ rw (e, e, cut_text n src dst (omega arith))
]

-- A copy of `n` bytes with a NUL behind it.
pub copied_text :
    (n : ℕ) (src dst : List ℕ)
    → n < length dst
    → until_nul (splice n (0 ∷ []) (overlay (strncpy_bytes n src) dst)) ≡ take n (until_nul src)
unfolding splice overlay until_nul strncpy_bytes replicate
copied_text n src [] h = absurd (omega arith)
copied_text zero src (d ∷ dst) h = refl
copied_text (suc n) [] (d ∷ dst) h = refl
copied_text (suc n) (c ∷ src) (d ∷ dst) h = elim (Bool-cases (c == 0)) [
  | inl e ↦ rw e
  | inr e ↦ rw (e, e, copied_text n src dst (omega arith))
]

pub until_nul-take : (n : ℕ) (cs : List ℕ) → until_nul (take n cs) ≡ take n (until_nul cs)
unfolding until_nul
until_nul-take zero cs = refl
until_nul-take (suc n) [] = refl
until_nul-take (suc n) (c ∷ cs) = elim (Bool-cases (c == 0)) [
  | inl e ↦ rw e
  | inr e ↦ rw e (ap (◌∷◌ c) (until_nul-take n cs))
]
