-- ===== src/Deadlock.antt =====
-- examples/class_3/09_deadlock_prevention/deadlock_demo.c: any number of processes that read the
-- file at the same time, and the two mutexes that each of them tries to take. A step is one call
-- of mutex_trylock or mutex_unlock, or one return from msleep.
use kernel_programming.Base.{
  ℕ, suc, ◌+◌, ◌<◌, ◌≤◌, ◌≡◌, ◌≢◌, Bool, true, false, Option, none, some, ◌==◌, if◌then◌else◌,
}
use kernel_programming.Kernel.Family.{update}
pub mod Moves
pub mod Exclusion

abbrev pub max_retries : ℕ
max_retries = 10

-- The holders of `resource_a` and `resource_b`.
pub record Mutexes : Type 0 where
  pub resource_a : Option ℕ
  pub resource_b : Option ℕ

-- Where a process stands in `deadlock_demo_read`.
pub data Pc : Type 0 where
  outside : Pc
  trying : (retries : ℕ) → Pc  -- head of the loop of `safe_acquire_both_locks`
  got_first : (retries : ℕ) → Pc  -- before the second mutex_trylock
  giving_up : (retries : ℕ) → Pc  -- before the mutex_unlock in the loop
  sleeping : (retries : ℕ) → Pc  -- in msleep(10)
  working : Pc  -- with both locks, up to `release_both_locks`
  leaving : Pc  -- between the two unlocks of `release_both_locks`

-- A move of process `k`. mutex_trylock fails where the mutex has a holder.
pub data Move (k : ℕ) (m : Mutexes) : Pc → Mutexes → Pc → Type 0 where
  read : Move k m outside m (trying 0)
  try_first :
      {r : ℕ}
      → r < max_retries
      → m.resource_a ≡ none
      → Move k m (trying r) (record m { resource_a = some k }) (got_first r)
  first_busy : {r : ℕ} → r < max_retries → m.resource_a ≢ none → Move k m (trying r) m (sleeping r)
  ebusy : {r : ℕ} → max_retries ≤ r → Move k m (trying r) m outside
  try_second :
      {r : ℕ}
      → m.resource_b ≡ none
      → Move k m (got_first r) (record m { resource_b = some k }) working
  second_busy : {r : ℕ} → m.resource_b ≢ none → Move k m (got_first r) m (giving_up r)
  unlock_first : {r : ℕ} → Move k m (giving_up r) (record m { resource_a = none }) (sleeping r)
  awake : {r : ℕ} → Move k m (sleeping r) m (trying (r + 1))
  release_second : Move k m working (record m { resource_b = none }) leaving
  release_first : Move k m leaving (record m { resource_a = none }) outside

pub record System : Type 0 where
  pub mutexes : Mutexes
  pub pc : ℕ → Pc

pub data Step (s : System) : System → Type 0 where
  step :
      (k : ℕ) {m : Mutexes} {p : Pc}
      → Move k s.mutexes (s.pc k) m p
      → Step s (record { mutexes = m; pc = update s.pc k p })

abbrev pub init : System
init = record { mutexes = record { resource_a = none; resource_b = none }; pc = λ k. outside }

pub data Reach : System → Type 0 where
  start : Reach init
  later : {s t : System} → Reach s → Step s t → Reach t
