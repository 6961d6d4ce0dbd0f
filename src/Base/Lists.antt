-- ===== src/Base/Lists.antt =====
-- Lists over the native numbers: lengths, prefixes, single positions.
use Prim.Native.Nat.{ℕ, zero, suc, ◌+◌, ◌-◌, ◌≤◌, ◌<◌}
use mathlib.Core.Path.{◌≡◌, refl, ap}
use mathlib.Core.Option.{Option, none, some}
use mathlib.Core.List.{List, [], ◌∷◌, ◌++◌}
use native.Mathlib.Omega.{arith}

abbrev pub All {ℓ κ} : {A : Type ℓ} → (A → Type κ) → List A → Type κ
All P [] = Unit
All P (x ∷ xs) = P x × All P xs

module _ {ℓ} {A : Type ℓ} where
  abbrev pub length : List A → ℕ
  length [] = 0
  length (x ∷ xs) = suc (length xs)

  abbrev pub take : ℕ → List A → List A
  take zero xs = []
  take (suc n) [] = []
  take (suc n) (x ∷ xs) = x ∷ take n xs

  abbrev pub drop : ℕ → List A → List A
  drop zero xs = xs
  drop (suc n) [] = []
  drop (suc n) (x ∷ xs) = drop n xs

  abbrev pub get_elem? : List A → ℕ → Option A
  get_elem? [] i = none
  get_elem? (x ∷ xs) zero = some x
  get_elem? (x ∷ xs) (suc i) = get_elem? xs i

  unfoldable pub replicate : ℕ → A → List A
  replicate zero x = []
  replicate (suc n) x = x ∷ replicate n x

  pub length-replicate : (n : ℕ) (x : A) → length (replicate n x) ≡ n
  unfolding replicate
  length-replicate zero x = refl
  length-replicate (suc n) x = ap suc (length-replicate n x)

  pub length-append : (xs ys : List A) → length (xs ++ ys) ≡ length xs + length ys
  length-append [] ys = omega arith
  length-append (x ∷ xs) ys = omega (arith, length-append xs ys)

  pub length-take : (n : ℕ) (xs : List A) → n ≤ length xs → length (take n xs) ≡ n
  length-take zero xs h = refl
  length-take (suc n) [] h = absurd (omega arith)
  length-take (suc n) (x ∷ xs) h = ap suc (length-take n xs (omega arith))

  pub length-drop : (n : ℕ) (xs : List A) → length (drop n xs) ≡ length xs - n
  length-drop zero xs = omega arith
  length-drop (suc n) [] = omega arith
  length-drop (suc n) (x ∷ xs) = omega (arith, length-drop n xs)

  pub length-take_le : (n : ℕ) (xs : List A) → length (take n xs) ≤ n
  length-take_le zero xs = omega arith
  length-take_le (suc n) [] = omega arith
  length-take_le (suc n) (x ∷ xs) = omega (arith, length-take_le n xs)

  pub take-append_drop : (n : ℕ) (xs : List A) → take n xs ++ drop n xs ≡ xs
  take-append_drop zero xs = refl
  take-append_drop (suc n) [] = refl
  take-append_drop (suc n) (x ∷ xs) = ap (◌∷◌ x) (take-append_drop n xs)

  pub take_all : (n : ℕ) (xs : List A) → length xs ≤ n → take n xs ≡ xs
  take_all zero [] h = refl
  take_all zero (x ∷ xs) h = absurd (omega arith)
  take_all (suc n) [] h = refl
  take_all (suc n) (x ∷ xs) h = ap (◌∷◌ x) (take_all n xs (omega arith))

  pub take-append_rest : (n : ℕ) (xs : List A) → take n xs ++ drop (length (take n xs)) xs ≡ xs
  take-append_rest zero xs = refl
  take-append_rest (suc n) [] = refl
  take-append_rest (suc n) (x ∷ xs) = ap (◌∷◌ x) (take-append_rest n xs)

  -- A prefix is empty only if nothing was asked for or nothing is there.
  pub length-take_pos : (n : ℕ) (xs : List A) → 0 < n → 0 < length xs → 0 < length (take n xs)
  length-take_pos zero xs h g = h
  length-take_pos (suc n) [] h g = g
  length-take_pos (suc n) (x ∷ xs) h g = omega arith

  pub drop_end : (n : ℕ) (xs : List A) → length xs ≤ n → drop n xs ≡ []
  drop_end zero [] h = refl
  drop_end zero (x ∷ xs) h = absurd (omega arith)
  drop_end (suc n) [] h = refl
  drop_end (suc n) (x ∷ xs) h = drop_end n xs (omega arith)

  pub drop-append : (k : ℕ) (xs ys : List A) → k ≤ length xs → drop k (xs ++ ys) ≡ drop k xs ++ ys
  drop-append zero xs ys h = refl
  drop-append (suc k) [] ys h = absurd (omega arith)
  drop-append (suc k) (x ∷ xs) ys h = drop-append k xs ys (omega arith)
