-- ===== src/Procfs/Greeting.antt =====
-- What the readers of the greeting file get, whatever was done to it before.
use kernel_programming.Base.{
  ℕ, ◌-◌, ◌≤◌, ◌<◌, ◌≡◌, refl, ap, ◌∙◌, inl, inr, Bool-cases, List, [], ◌∷◌, length, length-append,
  length-splice, splice, write_at-within, ltb, ◌==◌, Result, ok, err, einval, efault, Access, some,
  ◌>>=◌, arith,
}
use kernel_programming.Kernel.User.{UserMemory}
use kernel_programming.Kernel.Reading.{Reading}
use kernel_programming.Kernel.Once.{print_once_lem, delivery, at_end}
use kernel_programming.Kernel.Decimal.{IsDecimal}
use kernel_programming.Procfs.{max_size, greeting, proc_read, proc_write}

-- A call of one of the handlers, by some user.
pub data Call : Type 0 where
  read : UserMemory → (pid count pos : ℕ) → Call
  write : UserMemory → (count : ℕ) → Call

proc_write_lem :
    (u : UserMemory) (count : ℕ) (kernel_buffer : List ℕ)
    → length kernel_buffer ≡ max_size
    → (after : List ℕ) × (result : Result ℕ) × (proc_write u count kernel_buffer
        ≡ some (after, result))
      × (length after ≡ max_size)
unfolding proc_write
proc_write_lem u count b sized = elim (Bool-cases (ltb (max_size - 1) count)) [
  | inl e ↦ (b, err einval, rw e refl, sized)
  | inr e ↦
      let few : count ≤ max_size - 1 = ground arith in
      let b1 : List ℕ = splice 0 (u.from_user count) b in
      let same : length b1 ≡ length b = length-splice 0 (u.from_user count) b in
      let copy =
        write_at-within b 0 (u.from_user count) (omega (arith, u.length-from_user count, few)) in
      elim (Bool-cases (u.from_left count == 0)) [
        | inl all ↦ (
          splice count (0 ∷ []) b1,
          ok count,
          rw (e, copy, all, write_at-within b1 count (0 ∷ []) (omega (arith, same))) refl,
          length-splice count (0 ∷ []) b1 ∙ same ∙ sized,
        )
        | inr fault ↦ (b1, err efault, rw (e, copy, fault) refl, same ∙ sized)
      ]
]

module _ (decimal : ℕ → List ℕ) (d : IsDecimal decimal) where
  greeting_fits : (pid : ℕ) → length (greeting decimal pid) < max_size
  greeting_fits pid = rw (length-append, length-append) (omega (arith, d.int pid))

  proc_read_lem :
      (u : UserMemory) (pid count pos : ℕ) (kernel_buffer : List ℕ)
      → length kernel_buffer ≡ max_size
      → (after : List ℕ) × (reading : Reading) × (proc_read decimal u pid count pos kernel_buffer
          ≡ some (record { buffer = after; reading = reading }))
        × (length after ≡ max_size)
        × (pos ≡ 0 → reading ≡ delivery u (greeting decimal pid))
  unfolding proc_read
  proc_read_lem u pid count pos b sized = elim (Bool-cases (ltb 0 pos)) [
    | inl e ↦ (b, at_end pos, rw e refl, sized, λ z. absurd (ground arith))
    | inr e ↦
        let (after, printed, kept) =
          print_once_lem max_size u b (greeting decimal pid) sized (greeting_fits pid) in
        (after, delivery u (greeting decimal pid), rw e printed, kept, λ z. refl)
  ]

-- The buffer after the calls, one after the other.
abbrev pub serve : (decimal : ℕ → List ℕ) → Call → List ℕ → Access (List ℕ)
serve decimal (read u pid count pos) b = do
  once ← proc_read decimal u pid count pos b
  some once.buffer
serve decimal (write u count) b = do (after, result) ← proc_write u count b; some after

abbrev pub serve_all : (decimal : ℕ → List ℕ) → List Call → List ℕ → Access (List ℕ)
serve_all decimal [] b = some b
serve_all decimal (c ∷ cs) b = serve decimal c b >>= serve_all decimal cs

serve_all_lem :
    (decimal : ℕ → List ℕ) (cs : List Call) (b : List ℕ)
    → IsDecimal decimal
    → length b ≡ max_size
    → (after : List ℕ) × (serve_all decimal cs b ≡ some after) × (length after ≡ max_size)
serve_all_lem decimal [] b d sized = (b, refl, sized)
serve_all_lem decimal (read u pid count pos ∷ cs) b d sized =
    let (mid, _, e, kept, _) = proc_read_lem decimal d u pid count pos b sized in
    let (after, rest, kept') = serve_all_lem decimal cs mid d kept in
    (after, rw (e, rest) refl, kept')
serve_all_lem decimal (write u count ∷ cs) b d sized =
    let (mid, _, e, kept) = proc_write_lem u count b sized in
    let (after, rest, kept') = serve_all_lem decimal cs mid d kept in
    (after, rw (e, rest) refl, kept')

-- After any reads and writes of a buffer of 1024 bytes, none of which goes outside of it, a read at
-- position 0 delivers the greeting and no more: all of it, whatever the count that is asked for, and
-- nothing of what was written. That is where %d prints at most 11 characters for an int.
pub serve_all-greeting :
    (decimal : ℕ → List ℕ) (cs : List Call) (kernel_buffer : List ℕ) (u : UserMemory)
    (pid count : ℕ)
    → IsDecimal decimal
    → length kernel_buffer ≡ max_size
    → (after last : List ℕ) × (serve_all decimal cs kernel_buffer ≡ some after)
      × (proc_read decimal u pid count 0 after
          ≡ some (record { buffer = last; reading = delivery u (greeting decimal pid) }))
serve_all-greeting decimal cs b u pid count d sized =
    let (after, served, kept) = serve_all_lem decimal cs b d sized in
    let (last, reading, e, _, text) = proc_read_lem decimal d u pid count 0 after kept in
    (after, last, served, e ∙ ap (λ r. some (record { buffer = last; reading = r })) (text refl))
