-- ===== src/Sysfs/Strings.antt =====
-- Writing and reading the string attribute of the sysfs example.
use kernel_programming.Base.{
  strncpy_bytes, length-strncpy_bytes, cut_text, ℕ, zero, suc, ◌+◌, ◌-◌, ◌<◌, ◌≡◌, refl, sym, ap,
  ◌∙◌, inl, inr, List, [], ◌∷◌, ◌++◌, codes, false, replicate, length, length-append, take,
  until_nul, length-until_nul, take-until_nul, strlen, strlen-until_nul, IsString, read_at-within,
  write_at-within, slice, splice, length-splice, slice-splice_self, leb, Bool-cases, ◌==◌, ok, some,
  arith,
}
use kernel_programming.Sysfs.{
  Example, string_size, fresh_example, string_show, strncpy_bytes, string_store,
}

-- The array has its size, and holds a string.
pub record IsValid (x : Example) : Type 0 where
  pub sized : length x.example_string ≡ string_size
  pub string : IsString x.example_string

pub fresh_example-IsValid : IsValid fresh_example
unfolding strlen until_nul replicate
fresh_example-IsValid = record { sized = refl; string = refl }

-- A write of 1 to 63 bytes succeeds, and the string is what was written up to a NUL or the last
-- byte, which is dropped.
pub string_store_lem :
    (buf : List ℕ) (count : ℕ) (x : Example)
    → IsValid x
    → 0 < count
    → count < string_size
    → (x' : Example) × (string_store buf count x ≡ some (x', ok count))
      × IsValid x'
      × (until_nul x'.example_string ≡ take (count - 1) (until_nul buf))
unfolding string_store splice
string_store_lem buf zero x v some_bytes few = absurd (omega arith)
string_store_lem buf (suc n) x v some_bytes few =
    let copied : List ℕ = strncpy_bytes (suc n) buf in
    let size : length copied ≡ suc n = length-strncpy_bytes (suc n) buf in
    let string1 : List ℕ = splice 0 copied x.example_string in
    let same : length string1 ≡ length x.example_string = length-splice 0 copied x.example_string in
    let string2 : List ℕ = splice n (0 ∷ []) string1 in
    let (ends, _) =
      strlen-until_nul n string2
        (slice-splice_self n (0 ∷ []) string1 (omega (arith, same, v.sized))) in
    let minus : suc n - 1 ≡ n = omega arith in
    let room : leb string_size (suc n) ≡ false = ground arith in
    (
      record x { example_string = string2 },
      rw
          (
            room,
            write_at-within x.example_string 0 copied (omega (arith, size, v.sized)),
            write_at-within string1 n (0 ∷ []) (omega (arith, same, v.sized)),
          )
          refl,
      record { sized = length-splice n (0 ∷ []) string1 ∙ same ∙ v.sized; string = ends },
      cut_text n buf x.example_string (omega (arith, v.sized))
          ∙ ap (λ k. take k (until_nul buf)) (sym minus),
    )

pub string_show_lem :
    (x : Example) → IsValid x → string_show x ≡ some (until_nul x.example_string ++ codes "\n")
unfolding string_show slice
string_show_lem x v =
    let text : List ℕ = until_nul x.example_string in
    rw
      (
        v.string,
        read_at-within x.example_string 0 (length text)
            (omega (arith, length-until_nul x.example_string)),
      )
      (ap (λ t. some (t ++ codes "\n")) (take-until_nul x.example_string))

-- Of a string and a newline, all but the newline is kept.
all_but_newline :
    (cs : List ℕ)
    → take (length (until_nul cs)) (until_nul (until_nul cs ++ codes "\n")) ≡ until_nul cs
unfolding until_nul
all_but_newline [] = refl
all_but_newline (c ∷ cs) = elim (Bool-cases (c == 0)) [
  | inl e ↦ rw e
  | inr e ↦ rw (e, e) (ap (◌∷◌ c) (all_but_newline cs))
]

-- A write of 1 to 63 bytes, newline or not, is read back without its last byte, and a newline.
pub string_show-string_store :
    (buf : List ℕ) (count : ℕ) (x : Example)
    → IsValid x
    → 0 < count
    → count < string_size
    → (x' : Example) × (string_store buf count x ≡ some (x', ok count))
      × (string_show x' ≡ some (take (count - 1) (until_nul buf) ++ codes "\n"))
      × IsValid x'
string_show-string_store buf count x v some_bytes few =
    let (x', stored, v', text) = string_store_lem buf count x v some_bytes few in
    (x', stored, string_show_lem x' v' ∙ ap (λ t. some (t ++ codes "\n")) text, v')

-- What a read delivered can be written back, where it is below 64 bytes: the write succeeds, and the
-- next read delivers the same.
pub string_store-string_show :
    (x : Example) (shown : List ℕ)
    → IsValid x
    → string_show x ≡ some shown
    → length shown < string_size
    → (x' : Example) × (string_store shown (length shown) x ≡ some (x', ok (length shown)))
      × (string_show x' ≡ some shown)
string_store-string_show x shown v e few =
    let text : List ℕ = until_nul x.example_string in
    let some_shown : some shown ≡ some (text ++ codes "\n") = sym e ∙ string_show_lem x v in
    let same : shown ≡ text ++ codes "\n" = ground arith in
    let n : length shown ≡ length text + 1 = ap length same ∙ length-append text (codes "\n") in
    let (x', stored, v', kept) = string_store_lem shown (length shown) x v (omega (arith, n)) few in
    let last : length shown - 1 ≡ length text = omega (arith, n) in
    let back : until_nul x'.example_string ≡ text =
      kept
      ∙ ap (λ k. take k (until_nul shown)) last
      ∙ ap (λ t. take (length text) (until_nul t)) same
      ∙ all_but_newline x.example_string in
    (x', stored, string_show_lem x' v' ∙ ap (λ t. some (t ++ codes "\n")) back ∙ ap some (sym same))
