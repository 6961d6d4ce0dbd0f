-- ===== src/Tests/Pool.antt =====
-- Two processes in the resource pool: the second loads the counter of the ids before the first has
-- stored it, and both use the same id.
use kernel_programming.Base.{◌-◌, ◌≤◌, ◌≡◌, refl, arith}
use kernel_programming.Pool.{
  admitted, counted, read_id, using, down, count_in, load_id, store_id, System, step, init, Reach,
  start, later, max_resources,
}
use kernel_programming.Base.{
  false, some, replicate, length-replicate, codes, strlen, splice, overlay, read_at, write_at,
  slice,
}
use kernel_programming.Kernel.User.{mapped}
use kernel_programming.Kernel.Reading.{Reading}
use kernel_programming.Kernel.Once.{snprintf, print_once}
use kernel_programming.Pool.Mutex.{
  Served, mutex_demo_read, status_read, mutex_text, output_size, fresh_data, printed,
}
use kernel_programming.Pool.Fits.{History, reads-fit}
use kernel_programming.Tests.Decimal.{decimal, digits, decimal-IsDecimal}
use kernel_programming.Kernel.Family.{total, update}
use kernel_programming.Pool.Bounds.{holding, active, Reach-pool}

abbrev crowded : System
crowded = record {
  shared = record { resource_pool = 1; active_users = 2; resource_id_counter = 2 };
  place =
      update
        (update
          (update
            (update
              (update (update (update (update init.place 0 admitted) 1 admitted) 0 counted) 1
                counted)
              0 (read_id 1))
            1 (read_id 1))
          0 (using 1))
        1 (using 1);
}

crowded-Reach : Reach 2 crowded
crowded-Reach =
    later
      (later
        (later
          (later
            (later
              (later
                (later (later start (step 0 (omega arith) (down (omega arith))))
                  (step 1 (omega arith) (down (omega arith))))
                (step 0 (omega arith) count_in))
              (step 1 (omega arith) count_in))
            (step 0 (omega arith) load_id))
          (step 1 (omega arith) load_id))
        (step 0 (omega arith) store_id))
      (step 1 (omega arith) store_id)

Reach-pool_example :
    (total holding 2 crowded.place ≤ max_resources)
    × (crowded.shared.resource_pool ≡ max_resources - total holding 2 crowded.place)
    × (crowded.shared.active_users ≡ total active 2 crowded.place)
    × (crowded.shared.active_users ≤ max_resources)
Reach-pool_example = Reach-pool 2 crowded crowded-Reach

same_id : (crowded.place 0 ≡ using 1) × (crowded.place 1 ≡ using 1)
same_id = (refl, refl)

reads-fit_example :
    ((served : Served) × (mutex_demo_read decimal
          (mapped 0)
          false
          4321
          0
          (replicate output_size 0)
          fresh_data
        ≡ some served))
    × ((reading : Reading) × (status_read decimal
            (mapped 0)
            0
            (replicate output_size 0)
            fresh_data
            crowded.shared
          ≡ some reading))
reads-fit_example =
    reads-fit decimal (mapped 0) false 4321 0 2 (replicate output_size 0) fresh_data crowded
      decimal-IsDecimal History.start crowded-Reach (omega arith) (length-replicate output_size 0)

-- The text of the mutex file for a first reader.
mutex_data :
    (fresh_served : Served) × (mutex_demo_read decimal
        (mapped 0)
        false
        1234
        0
        (replicate output_size 0)
        fresh_data
      ≡ some fresh_served)
    × (fresh_served.demo.shared_data ≡ 34)
    × (fresh_served.reading.delivered ≡ mutex_text decimal 34 1234 (codes "Updated by PID 1234"))
unfolding mutex_demo_read snprintf print_once printed digits strlen splice overlay read_at write_at
    slice replicate
mutex_data = (_, refl, refl, refl)
