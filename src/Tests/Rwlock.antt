-- ===== src/Tests/Rwlock.antt =====
-- A writer that has updated the value to 7 at time 20, the store of the initialisation, of the time 3,
-- after that, and a reader that has read the value 7 with the time 3, which is of no update.
use kernel_programming.Base.{true, false, ◌≤◌, ◌≡◌, ◌⊎◌, refl, List, [], ◌∷◌, arith}
use mathlib.Core.List.{Mem}
use kernel_programming.Kernel.Family.{total, update}
use kernel_programming.Rwlock.{
  Update, reading, read_data, read_both, unlocked, writing, stored_data, stored_both, outside,
  read_lock, load_data, load_time, read_unlock, write_lock, store_data, store_time, write_unlock,
  System, step, note_time, Reach, start, later,
}
use kernel_programming.Rwlock.Lock.{shares, owns}
use kernel_programming.Rwlock.Consistency.{Reach-consistent}

abbrev updates : List Update
updates = (7, 3) ∷ (7, 20) ∷ (0, 0) ∷ []

abbrev read_back : System
read_back = record {
  shared = record { shared_data = 7; last_update = 3; readers = 0; written = false };
  noted = true;
  place =
      update
        (update
          (update
            (update
              (update
                (update (update (update (λ i. outside) 0 (writing 7)) 0 (stored_data 7)) 0
                  (stored_both 7))
                0 outside)
              1 reading)
            1 (read_data 7))
          1 (read_both 7 3))
        1 (unlocked 7 3);
}

read_back-Reach : Reach 2 updates read_back
read_back-Reach =
    later
      (later
        (later
          (later
            (later
              (later
                (later
                  (later (later start (step 0 (omega arith) (write_lock 7 refl refl)))
                    (step 0 (omega arith) store_data))
                  (step 0 (omega arith) (store_time 20)))
                (note_time 3 refl))
              (step 0 (omega arith) write_unlock))
            (step 1 (omega arith) (read_lock refl)))
          (step 1 (omega arith) load_data))
        (step 1 (omega arith) load_time))
      (step 1 (omega arith) read_unlock)

Reach-consistent_example :
    Mem (7, 3) updates
    × (total owns 2 read_back.place ≤ 1)
    × ((total owns 2 read_back.place ≡ 0) ⊎ (total shares 2 read_back.place ≡ 0))
Reach-consistent_example =
    Reach-consistent 2 updates read_back 1 7 3 read_back-Reach (omega arith) refl
