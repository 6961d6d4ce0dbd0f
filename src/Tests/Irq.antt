-- ===== src/Tests/Irq.antt =====
-- Two executions of the threaded interrupt demo: a process that writes 2, and the interrupt. Both
-- load the interrupt counter before either stores it.
use kernel_programming.Base.{◌+◌, ◌*◌, ◌≤◌, ◌≡◌, arith, true, false}
use kernel_programming.Irq.{
  System, Reach, start, later, step, init, full, hardware, entered, counted, loaded, thread, idle,
  thread_counted, trigger, count_primary, load_irq_counter, store_irq_counter, count_thread,
  complex_loop,
}
use kernel_programming.Irq.Invariant.{in_thread, in_primary, to_count, holding}
use kernel_programming.Irq.Counts.{Reach-counts}
use kernel_programming.Irq.Work.{complex_loop-closed}
use kernel_programming.Kernel.Family.{total, update}

abbrev raced : System
raced = record {
  shared = record {
    irq_counter = 1;
    primary_handler_count = 2;
    thread_handler_count = 1;
    shared_counter = 0;
    shared_data_mutex = false;
    wake_thread = true;
  };
  place =
      update
        (update
          (update
            (update
              (update
                (update
                  (update (update (update init.place 0 (entered full)) 1 (entered hardware)) 0
                    (counted full))
                  1 (counted hardware))
                0 (loaded full 0))
              1 (loaded hardware 0))
            0 thread)
          1 idle)
        0 thread_counted;
}

raced-Reach : Reach 2 9 raced
raced-Reach =
    later
      (later
        (later
          (later
            (later
              (later
                (later
                  (later (later start (step 0 (omega arith) (trigger full)))
                    (step 1 (omega arith) (trigger hardware)))
                  (step 0 (omega arith) count_primary))
                (step 1 (omega arith) count_primary))
              (step 0 (omega arith) load_irq_counter))
            (step 1 (omega arith) load_irq_counter))
          (step 0 (omega arith) store_irq_counter))
        (step 1 (omega arith) store_irq_counter))
      (step 0 (omega arith) count_thread)

-- The interrupt counter has missed one of the two interrupts.
Reach-counts_example :
    (raced.shared.thread_handler_count
      ≡ raced.shared.shared_counter + total in_thread 2 raced.place)
    × (total holding 2 raced.place ≤ 1)
    × (raced.shared.irq_counter + total in_primary 2 raced.place
        ≤ raced.shared.primary_handler_count)
    × (raced.shared.thread_handler_count
          + total to_count 2 raced.place
          + total in_primary 2 raced.place
        ≤ raced.shared.primary_handler_count)
Reach-counts_example = Reach-counts 2 9 raced raced-Reach (omega arith)

complex_loop-closed_example : 2 * complex_loop 10000 0 0 + 10000 ≡ 10000 * 10000
complex_loop-closed_example = complex_loop-closed 10000 (omega arith)
