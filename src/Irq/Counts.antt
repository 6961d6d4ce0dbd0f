-- ===== src/Irq/Counts.antt =====
-- What the counters of the threaded interrupt demo tell, in any interleaving of any number of
-- executions.
use kernel_programming.Base.{ℕ, ◌+◌, ◌≤◌, ◌<◌, ◌^◌, ◌≡◌, arith}
use kernel_programming.Kernel.Family.{total}
use kernel_programming.Irq.{System, Reach}
use kernel_programming.Irq.Invariant.{Reach-Inv, in_thread, in_primary, to_count, holding, bit_le}

-- In every state that is reached in fewer than 2 ^ 31 steps: the counter under the mutex misses
-- exactly the thread handlers that are between their count and their store, so it loses no update;
-- at most one of them holds the mutex; and neither the unprotected interrupt counter nor the count of
-- thread handlers is above the count of primary handlers, of which the running ones are still to
-- come.
pub Reach-counts :
    (n k : ℕ) (s : System)
    → Reach n k s
    → k < 2 ^ 31
    → (s.shared.thread_handler_count ≡ s.shared.shared_counter + total in_thread n s.place)
      × (total holding n s.place ≤ 1)
      × (s.shared.irq_counter + total in_primary n s.place ≤ s.shared.primary_handler_count)
      × (s.shared.thread_handler_count + total to_count n s.place + total in_primary n s.place
          ≤ s.shared.primary_handler_count)
Reach-counts n k s reach few =
    let inv = Reach-Inv n k s reach few in
    (
      inv.sums.shared,
      omega (arith, inv.sums.mutex, bit_le s.shared.shared_data_mutex),
      inv.sums.irq,
      omega (arith, inv.sums.threads),
    )
