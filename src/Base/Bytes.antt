-- ===== src/Base/Bytes.antt =====
-- Memory objects as byte lists: `memcpy` out of an object and into one, checked against its bounds.
use Prim.Native.Nat.{ℕ, zero, suc, ◌+◌, ◌≤◌}
use mathlib.Core.Path.{◌≡◌, refl, sym, ap, ◌∙◌}
use mathlib.Core.Option.{none, some}
use mathlib.Core.List.{List, [], ◌∷◌, ◌++◌}
use native.Mathlib.Omega.{arith}
use Prim.Native.Nat.{◌-◌, ◌<◌}
use kernel_programming.Base.Tests.{leb, le→leb, if◌then◌else◌}
use kernel_programming.Base.Lists.{
  length, take, drop, length-take, length-append, drop-append, length-drop,
}
use kernel_programming.Base.Results.{Access}

module _ {ℓ} {A : Type ℓ} where
  -- `n` items from position `o`
  unfoldable pub slice : ℕ → ℕ → List A → List A
  slice o n xs = take n (drop o xs)

  -- `src` written over `dst` from its start; what does not fit is dropped
  unfoldable pub overlay : List A → List A → List A
  overlay [] dst = dst
  overlay (s ∷ src) [] = []
  overlay (s ∷ src) (d ∷ dst) = s ∷ overlay src dst

  unfoldable pub splice : ℕ → List A → List A → List A
  unfolding overlay
  splice zero src dst = overlay src dst
  splice (suc o) src [] = []
  splice (suc o) src (d ∷ dst) = d ∷ splice o src dst

  -- memcpy of `n` items out of an object, from offset `o`
  unfoldable pub read_at : List A → ℕ → ℕ → Access (List A)
  unfolding slice
  read_at xs o n = if leb (o + n) (length xs) then some (slice o n xs) else none

  -- memcpy of `src` into an object, at offset `o`
  unfoldable pub write_at : List A → ℕ → List A → Access (List A)
  unfolding splice
  write_at xs o src = if leb (o + length src) (length xs) then some (splice o src xs) else none

  length-overlay : (src dst : List A) → length (overlay src dst) ≡ length dst
  unfolding overlay
  length-overlay [] dst = refl
  length-overlay (s ∷ src) [] = refl
  length-overlay (s ∷ src) (d ∷ dst) = ap suc (length-overlay src dst)

  pub length-splice : (o : ℕ) (src dst : List A) → length (splice o src dst) ≡ length dst
  unfolding splice
  length-splice zero src dst = length-overlay src dst
  length-splice (suc o) src [] = refl
  length-splice (suc o) src (d ∷ dst) = ap suc (length-splice o src dst)

  take-overlay :
      (src dst : List A) → length src ≤ length dst → take (length src) (overlay src dst) ≡ src
  unfolding overlay
  take-overlay [] dst h = refl
  take-overlay (s ∷ src) [] h = absurd (omega arith)
  take-overlay (s ∷ src) (d ∷ dst) h = ap (◌∷◌ s) (take-overlay src dst (omega arith))

  -- What was written is read back.
  pub slice-splice_self :
      (o : ℕ) (src dst : List A)
      → o + length src ≤ length dst
      → slice o (length src) (splice o src dst) ≡ src
  unfolding slice splice
  slice-splice_self zero src dst h = take-overlay src dst (omega arith)
  slice-splice_self (suc o) [] [] h = refl
  slice-splice_self (suc o) (s ∷ src) [] h = absurd (omega arith)
  slice-splice_self (suc o) src (d ∷ dst) h = slice-splice_self o src dst (omega arith)

  take-splice_below : (n o : ℕ) (src dst : List A) → n ≤ o → take n (splice o src dst) ≡ take n dst
  unfolding splice
  take-splice_below zero o src dst h = refl
  take-splice_below (suc n) zero src dst h = absurd (omega arith)
  take-splice_below (suc n) (suc o) src [] h = refl
  take-splice_below (suc n) (suc o) src (d ∷ dst) h =
      ap (◌∷◌ d) (take-splice_below n o src dst (omega arith))

  -- A range below the written one is unchanged.
  pub slice-splice_below :
      (p n o : ℕ) (src dst : List A) → p + n ≤ o → slice p n (splice o src dst) ≡ slice p n dst
  unfolding slice splice
  slice-splice_below zero n o src dst h = take-splice_below n o src dst (omega arith)
  slice-splice_below (suc p) n zero src dst h = absurd (omega arith)
  slice-splice_below (suc p) n (suc o) src [] h = refl
  slice-splice_below (suc p) n (suc o) src (d ∷ dst) h =
      slice-splice_below p n o src dst (omega arith)

  drop-overlay : (p : ℕ) (src dst : List A) → length src ≤ p → drop p (overlay src dst) ≡ drop p dst
  unfolding overlay
  drop-overlay p [] dst h = refl
  drop-overlay zero (s ∷ src) dst h = absurd (omega arith)
  drop-overlay (suc p) (s ∷ src) [] h = refl
  drop-overlay (suc p) (s ∷ src) (d ∷ dst) h = drop-overlay p src dst (omega arith)

  drop-splice :
      (p o : ℕ) (src dst : List A) → o + length src ≤ p → drop p (splice o src dst) ≡ drop p dst
  unfolding splice
  drop-splice p zero src dst h = drop-overlay p src dst (omega arith)
  drop-splice zero (suc o) src dst h = absurd (omega arith)
  drop-splice (suc p) (suc o) src [] h = refl
  drop-splice (suc p) (suc o) src (d ∷ dst) h = drop-splice p o src dst (omega arith)

  -- A range above the written one is unchanged.
  pub slice-splice_above :
      (p n o : ℕ) (src dst : List A)
      → o + length src ≤ p
      → slice p n (splice o src dst) ≡ slice p n dst
  unfolding slice
  slice-splice_above p n o src dst h = ap (take n) (drop-splice p o src dst h)

  overlay-append :
      (xs ys dst : List A) → overlay (xs ++ ys) dst ≡ splice (length xs) ys (overlay xs dst)
  unfolding splice
  overlay-append [] ys dst = refl
  overlay-append (x ∷ xs) ys [] = refl
  overlay-append (x ∷ xs) ys (d ∷ dst) = ap (◌∷◌ x) (overlay-append xs ys dst)

  -- Two writes end to end are one write.
  pub splice-append :
      (o p : ℕ) (xs ys dst : List A)
      → o + length xs ≡ p
      → splice o (xs ++ ys) dst ≡ splice p ys (splice o xs dst)
  unfolding splice
  splice-append zero p xs ys dst h =
      let e : p ≡ length xs = omega arith in rw e (overlay-append xs ys dst)
  splice-append (suc o) zero xs ys dst h = absurd (omega arith)
  splice-append (suc o) (suc p) xs ys [] h = refl
  splice-append (suc o) (suc p) xs ys (d ∷ dst) h =
      ap (◌∷◌ d) (splice-append o p xs ys dst (omega arith))

  take_add : (n m k : ℕ) (xs : List A) → n + m ≡ k → take n xs ++ take m (drop n xs) ≡ take k xs
  take_add zero m k xs h = let e : m ≡ k = omega arith in rw e
  take_add (suc n) m zero xs h = absurd (omega arith)
  take_add (suc n) zero (suc k) [] h = refl
  take_add (suc n) (suc m) (suc k) [] h = refl
  take_add (suc n) m (suc k) (x ∷ xs) h = ap (◌∷◌ x) (take_add n m k xs (omega arith))

  pub drop-drop : (o n p : ℕ) (xs : List A) → o + n ≡ p → drop n (drop o xs) ≡ drop p xs
  drop-drop zero n p xs h = let e : n ≡ p = omega arith in rw e
  drop-drop (suc o) n zero xs h = absurd (omega arith)
  drop-drop (suc o) zero (suc p) [] h = refl
  drop-drop (suc o) (suc n) (suc p) [] h = refl
  drop-drop (suc o) n (suc p) (x ∷ xs) h = drop-drop o n p xs (omega arith)

  -- Two ranges end to end are one range.
  pub slice-append :
      (o n p m k : ℕ) (xs : List A)
      → o + n ≡ p
      → n + m ≡ k
      → slice o n xs ++ slice p m xs ≡ slice o k xs
  unfolding slice
  slice-append o n p m k xs hp hk = rw (← drop-drop o n p xs hp) (take_add n m k (drop o xs) hk)

  -- A prefix that ends with a single written item.
  pub take-splice_one :
      (n : ℕ) (x : A) (xs : List A)
      → n < length xs
      → take (n + 1) (splice n (x ∷ []) xs) ≡ take n xs ++ x ∷ []
  unfolding splice overlay
  take-splice_one zero x [] h = absurd (omega arith)
  take-splice_one zero x (y ∷ xs) h = refl
  take-splice_one (suc n) x [] h = absurd (omega arith)
  take-splice_one (suc n) x (y ∷ xs) h =
      let e : suc n + 1 ≡ suc (n + 1) = omega arith in
      rw e (ap (◌∷◌ y) (take-splice_one n x xs (omega arith)))

  -- The last `n` items.
  abbrev pub latest : ℕ → List A → List A
  latest n xs = drop (length xs - n) xs

  -- What an earlier cut dropped, a later cut drops as well.
  pub latest-append : (n : ℕ) (xs ys : List A) → latest n (latest n xs ++ ys) ≡ latest n (xs ++ ys)
  latest-append n xs ys =
      let k : ℕ = length xs - n in
      let cut : length (drop k xs) ≡ length xs - k = length-drop k xs in
      let joined : length (drop k xs ++ ys) ≡ length (drop k xs) + length ys =
        length-append (drop k xs) ys in
      let whole : length (xs ++ ys) ≡ length xs + length ys = length-append xs ys in
      let sum : k + (length (drop k xs ++ ys) - n) ≡ length (xs ++ ys) - n =
        omega (arith, cut, joined, whole) in
      ap (drop (length (drop k xs ++ ys) - n)) (sym (drop-append k xs ys (omega arith)))
      ∙ drop-drop k (length (drop k xs ++ ys) - n) (length (xs ++ ys) - n) (xs ++ ys) sum

  pub slice-zero : (o : ℕ) (xs : List A) → slice o 0 xs ≡ []
  unfolding slice
  slice-zero o xs = refl

  pub splice-nil : (o : ℕ) (dst : List A) → splice o [] dst ≡ dst
  unfolding splice
  splice-nil zero dst = refl
  splice-nil (suc o) [] = refl
  splice-nil (suc o) (d ∷ dst) = ap (◌∷◌ d) (splice-nil o dst)

  -- Reading and writing within the bounds does not fault.
  pub read_at-within :
      (xs : List A) (o n : ℕ) → o + n ≤ length xs → read_at xs o n ≡ some (slice o n xs)
  unfolding read_at
  read_at-within xs o n h = rw (le→leb _ _ h)

  pub write_at-within :
      (xs : List A) (o : ℕ) (src : List A)
      → o + length src ≤ length xs
      → write_at xs o src ≡ some (splice o src xs)
  unfolding write_at
  write_at-within xs o src h = rw (le→leb _ _ h)

  pub length-slice : (o n : ℕ) (xs : List A) → o + n ≤ length xs → length (slice o n xs) ≡ n
  unfolding slice
  length-slice o n xs h = length-take n (drop o xs) (omega (arith, length-drop o xs))
