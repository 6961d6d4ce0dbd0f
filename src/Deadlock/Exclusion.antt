-- ===== src/Deadlock/Exclusion.antt =====
-- What the try-locks of the deadlock demo achieve, in every state that the processes reach.
use kernel_programming.Base.{ℕ, ◌≤◌, ◌≡◌, ◌≢◌, refl, true, false, Option, none, some, arith}
use kernel_programming.Deadlock.{
  Pc, outside, trying, got_first, giving_up, sleeping, working, leaving, max_retries, System, Reach,
}
use kernel_programming.Deadlock.Moves.{holds_first, holds_second, retries_of, Reach-Inv}

-- In every state that is reached, whatever the interleaving, two processes that have taken the
-- first mutex are the same process, which the mutex names as its holder, and this process has tried
-- at most ten times.
pub Reach-exclusive :
    (s : System) (i j : ℕ)
    → Reach s
    → holds_first (s.pc i) ≡ true
    → holds_first (s.pc j) ≡ true
    → (i ≡ j) × (s.mutexes.resource_a ≡ some i) × (retries_of (s.pc i) ≤ max_retries)
Reach-exclusive s i j reach one two =
    let inv = Reach-Inv s reach in
    let mine : s.mutexes.resource_a ≡ some i = (inv i).first one in
    let theirs : s.mutexes.resource_a ≡ some j = (inv j).first two in
    (ground arith, mine, (inv i).few)

Option-free : (o : Option ℕ) → ((i : ℕ) → o ≢ some i) → o ≡ none
Option-free none h = refl
Option-free (some i) h = absurd (h i refl)

working_first : (p : Pc) → holds_second p ≡ true → holds_first p ≡ true
working_first working h = refl
working_first outside h = absurd (cc)
working_first (trying r) h = absurd (cc)
working_first (got_first r) h = absurd (cc)
working_first (giving_up r) h = absurd (cc)
working_first (sleeping r) h = absurd (cc)
working_first leaving h = absurd (cc)

-- In every state that is reached, a process that has just taken the first mutex finds the second
-- one free: its second mutex_trylock cannot fail.
pub Reach-second_free :
    (s : System) (i r : ℕ) → Reach s → s.pc i ≡ got_first r → s.mutexes.resource_b ≡ none
Reach-second_free s i r reach here =
    let inv = Reach-Inv s reach in
    let first : holds_first (s.pc i) ≡ true = rw here refl in
    Option-free s.mutexes.resource_b (λ j taken.
      let works : holds_second (s.pc j) ≡ true = (inv j).second_only taken in
      let both : holds_first (s.pc j) ≡ true = working_first (s.pc j) works in
      let (same, _, _) = Reach-exclusive s i j reach first both in
      let there : holds_second (s.pc i) ≡ true = rw same works in
      let not_there : holds_second (s.pc i) ≡ false = rw here refl in cc)
