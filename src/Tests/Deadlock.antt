-- ===== src/Tests/Deadlock.antt =====
-- Process 1 takes the first mutex, and process 2 finds it busy.
use kernel_programming.Base.{ℕ, ◌≤◌, ◌≡◌, refl, none, some, arith}
use kernel_programming.Deadlock.{
  Mutexes, trying, got_first, sleeping, read, try_first, first_busy, System, step, init, Reach,
  start, later, max_retries,
}
use kernel_programming.Kernel.Family.{update}
use kernel_programming.Deadlock.Moves.{retries_of}
use kernel_programming.Deadlock.Exclusion.{Reach-exclusive}

abbrev first_taken : Mutexes
first_taken = record { resource_a = some 1; resource_b = none }

abbrev contended : System
contended = record {
  mutexes = first_taken;
  pc =
      update (update (update (update init.pc 1 (trying 0)) 1 (got_first 0)) 2 (trying 0)) 2
        (sleeping 0);
}

contended-Reach : Reach contended
contended-Reach =
    later
      (later (later (later start (step 1 read)) (step 1 (try_first (omega arith) refl)))
        (step 2 read))
      (step 2 (first_busy (omega arith) (λ e. cc)))

Reach-exclusive_example :
    (◌≡◌ {A = ℕ} 1 1)
    × (contended.mutexes.resource_a ≡ some 1)
    × (retries_of (contended.pc 1) ≤ max_retries)
Reach-exclusive_example = Reach-exclusive contended 1 1 contended-Reach refl refl
