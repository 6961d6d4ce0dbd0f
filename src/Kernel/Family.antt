-- ===== src/Kernel/Family.antt =====
-- Processes as a family `ℕ → A` of places: a move of one of them, and how many of the first `n`
-- stand at places of a kind.
use kernel_programming.Base.{
  ℕ, zero, suc, ◌+◌, ◌≤◌, ◌<◌, ◌≡◌, refl, ap, inl, inr, Bool-cases, ◌==◌, if◌then◌else◌, false,
  arith,
}

abbrev pub update {ℓ} : {A : Type ℓ} → (ℕ → A) → ℕ → A → ℕ → A
update place i p j = if j == i then p else place j

module _ {ℓ} {A : Type ℓ} (w : A → ℕ) where
  -- `w` is 1 at the places that are counted, 0 elsewhere.
  unfoldable pub total : (n : ℕ) → (ℕ → A) → ℕ
  total zero place = 0
  total (suc n) place = total n place + w (place n)

  total-update_above :
      (n : ℕ) (place : ℕ → A) (i : ℕ) (p : A) → n ≤ i → total n (update place i p) ≡ total n place
  unfolding total
  total-update_above zero place i p h = refl
  total-update_above (suc n) place i p h =
      let away : (n == i) ≡ false = ground arith in
      rw (away, total-update_above n place i p (omega arith))

  pub total-update :
      (n : ℕ) (place : ℕ → A) (i : ℕ) (p : A)
      → i < n
      → total n (update place i p) + w (place i) ≡ total n place + w p
  unfolding total
  total-update zero place i p h = absurd (omega arith)
  total-update (suc n) place i p h = elim (Bool-cases (n == i)) [
    | inl e ↦
        let same : n ≡ i = ground arith in
        let kept : total n (update place i p) ≡ total n place =
          total-update_above n place i p (omega arith) in
        let at : w (place n) ≡ w (place i) = ap (λ k. w (place k)) same in
        rw e (omega (arith, kept, at))
    | inr e ↦ let rest = total-update n place i p (ground arith) in rw e (omega (arith, rest))
  ]

  pub total-zero : (n : ℕ) (p : A) → w p ≡ 0 → total n (λ i. p) ≡ 0
  unfolding total
  total-zero zero p h = refl
  total-zero (suc n) p h = omega (arith, total-zero n p h)

  -- One process is among those that are counted.
  pub place-le-total : (n : ℕ) (place : ℕ → A) (i : ℕ) → i < n → w (place i) ≤ total n place
  unfolding total
  place-le-total zero place i h = absurd (omega arith)
  place-le-total (suc n) place i h = elim (Bool-cases (n == i)) [
    | inl e ↦
        let same : w (place n) ≡ w (place i) = ap (λ k. w (place k)) (ground arith) in
        omega (arith, same)
    | inr e ↦ let rest = place-le-total n place i (ground arith) in omega (arith, rest)
  ]

-- Two processes are among those that are counted; `z` is any place that does not count.
pub two-le-total {ℓ} :
    {A : Type ℓ} (w : A → ℕ) (z : A) (n : ℕ) (place : ℕ → A) (i j : ℕ)
    → w z ≡ 0
    → i < n
    → j < n
    → (j == i) ≡ false
    → w (place i) + w (place j) ≤ total w n place
two-le-total w z n place i j none hi hj other =
    let rest = total-update w n place i z hi in
    let one = place-le-total w n (update place i z) j hj in
    let same : w (update place i z j) ≡ w (place j) = rw other refl in
    omega (arith, rest, one, same, none)

-- Where each kind of place counts for no more, the total is no more.
pub total-le {ℓ} :
    {A : Type ℓ} (v w : A → ℕ) (n : ℕ) (place : ℕ → A)
    → ((p : A) → v p ≤ w p)
    → total v n place ≤ total w n place
unfolding total
total-le v w zero place h = omega arith
total-le v w (suc n) place h =
    let here : v (place n) ≤ w (place n) = h (place n) in
    omega (arith, total-le v w n place h, here)
