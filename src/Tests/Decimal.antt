-- ===== src/Tests/Decimal.antt =====
-- Decimals of up to ten digits, as an instance of what %d prints.
use kernel_programming.Base.{
  ℕ, zero, suc, true, ◌-◌, ◌+◌, ◌/◌, ◌%◌, ◌^◌, ◌≤◌, ◌<◌, ◌≡◌, inl, inr, List, [], ◌∷◌, ◌++◌, length,
  length-append, ltb, if◌then◌else◌, Bool-cases, arith,
}
use kernel_programming.Kernel.Decimal.{IsDecimal}

unfoldable pub digits : (fuel n : ℕ) → List ℕ
digits zero n = []
digits (suc fuel) n =
    let rest : List ℕ = digits fuel (n / 10) in
    if ltb n 10 then (48 + n) ∷ [] else rest ++ (48 + n % 10) ∷ []

pub digits_le : (fuel n : ℕ) → length (digits fuel n) ≤ fuel
unfolding digits
digits_le zero n = omega arith
digits_le (suc fuel) n = elim (Bool-cases (ltb n 10)) [
  | inl e ↦ rw e (omega arith)
  | inr e ↦ rw e (
      omega
        (arith, length-append (digits fuel (n / 10)) ((48 + n % 10) ∷ []), digits_le fuel (n / 10)))
]

digits_short : (fuel n k : ℕ) → n < 10 ^ suc k → length (digits fuel n) ≤ suc k
unfolding digits
digits_short zero n k h = omega arith
digits_short (suc fuel) n zero h = let e : ltb n 10 ≡ true = ground arith in rw e (omega arith)
digits_short (suc fuel) n (suc k) h = elim (Bool-cases (ltb n 10)) [
  | inl e ↦ rw e (omega arith)
  | inr e ↦
      let less : n / 10 < 10 ^ suc k = omega arith in
      rw e (
        omega (
          arith,
          length-append (digits fuel (n / 10)) ((48 + n % 10) ∷ []),
          digits_short fuel (n / 10) k less,
        ))
]

abbrev pub decimal : ℕ → List ℕ
decimal = digits 10

pub decimal-IsDecimal : IsDecimal decimal
decimal-IsDecimal = record {
  short = λ n k some_digits h.
      let e : k ≡ suc (k - 1) = omega arith in rw e (digits_short 10 n (k - 1) (rw e at h));
  int = λ n. omega (arith, digits_le 10 n);
}
