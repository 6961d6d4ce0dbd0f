-- ===== src/Rwlock.antt =====
-- examples/class_3/08_rwlock_demo/rwlock_demo.c: readers and writers of a value and the time of its
-- update, behind a reader-writer lock. A step is one access to what the processes share; the
-- handlers run in any number of processes.
use kernel_programming.Base.{
  ℕ, suc, ◌+◌, ◌-◌, ◌≤◌, ◌<◌, ◌≡◌, List, [], ◌∷◌, ◌++◌, codes, ltb, if◌then◌else◌, Bool, true,
  false, not, Option, some, none, Access, ◌>>=◌, Result, ok, err, enomem,
}
use kernel_programming.Kernel.User.{UserMemory}
use kernel_programming.Kernel.Reading.{Reading}
use kernel_programming.Kernel.Once.{Once, print_once, at_end}
use kernel_programming.Kernel.Input.{int_input}
use kernel_programming.Kernel.Family.{update}
use kernel_programming.Kernel.Resources.{Boot, Event, acquire, release, ◌▷◌, stop, proc_entry}
pub mod Lock
pub mod Invariant
pub mod Consistency

-- `data_rwlock` is the number of its readers and whether a writer holds it.
pub record SharedData : Type 0 where
  pub shared_data : ℕ
  pub last_update : ℕ
  pub readers : ℕ
  pub written : Bool

-- A value and the jiffies of its update.
abbrev pub Update : Type 0
Update = ℕ × ℕ

-- Where a process stands in `reader_read` or `writer_write`.
pub data Place : Type 0 where
  outside : Place
  reading : Place  -- behind read_lock
  read_data : (local_data : ℕ) → Place  -- behind the load of shared_data
  read_both : (local_data local_time : ℕ) → Place  -- behind that of last_update, in msleep
  unlocked : (local_data local_time : ℕ) → Place  -- behind read_unlock, with the two to print
  writing : (new_value : ℕ) → Place  -- behind write_lock
  stored_data : (new_value : ℕ) → Place  -- between the two stores
  stored_both : (new_value : ℕ) → Place  -- in msleep

-- A move, and the update that it completes.
pub data Move (s : SharedData) : Place → List Update → SharedData → Place → Type 0 where
  read_lock : s.written ≡ false → Move s outside [] (record s { readers = s.readers + 1 }) reading
  load_data : Move s reading [] s (read_data s.shared_data)
  load_time : {d : ℕ} → Move s (read_data d) [] s (read_both d s.last_update)
  read_unlock :
      {d t : ℕ} → Move s (read_both d t) [] (record s { readers = s.readers - 1 }) (unlocked d t)
  finished : {d t : ℕ} → Move s (unlocked d t) [] s outside
  write_lock :
      (v : ℕ)
      → s.written ≡ false
      → s.readers ≡ 0
      → Move s outside [] (record s { written = true }) (writing v)
  store_data : {v : ℕ} → Move s (writing v) [] (record s { shared_data = v }) (stored_data v)
  store_time :
      {v : ℕ} (jiffies : ℕ)
      → Move s
          (stored_data v)
          ((v, jiffies) ∷ [])
          (record s { last_update = jiffies })
          (stored_both v)
  write_unlock : {v : ℕ} → Move s (stored_both v) [] (record s { written = false }) outside

-- `noted`: `rw_lock_init` has made its store to `last_update`.
pub record System : Type 0 where
  pub shared : SharedData
  pub noted : Bool
  pub place : ℕ → Place

-- A step of a process; or the store of `rw_lock_init`, which comes after both calls of proc_create and
-- without the lock, so at any time. That store pairs the time with the value that stands then.
pub data Step (n : ℕ) (s : System) : List Update → System → Type 0 where
  step :
      (i : ℕ) {us : List Update} {t : SharedData} {p : Place}
      → i < n
      → Move s.shared (s.place i) us t p
      → Step n s us (record s { shared = t; place = update s.place i p })
  note_time :
      (jiffies : ℕ)
      → s.noted ≡ false
      → Step n s
          ((s.shared.shared_data, jiffies) ∷ [])
          (record s { shared = record s.shared { last_update = jiffies }; noted = true })

-- The static data, with the time that is in `last_update`.
abbrev pub fresh_data : (last_update : ℕ) → SharedData
fresh_data last_update = record {
  shared_data = 0;
  last_update = last_update;
  readers = 0;
  written = false;
}

-- What `n` processes reach from the first proc_create on, with all pairs so far, the latest first.
pub data Reach (n : ℕ) : List Update → System → Type 0 where
  start :
      Reach n ((0, 0) ∷ []) (record { shared = fresh_data 0; noted = false; place = λ i. outside })
  later : {h us : List Update} {s t : System} → Reach n h s → Step n s us t → Reach n (us ++ h) t

-- The value that a writer takes from its user before it locks.
unfoldable pub new_value : UserMemory → (kstrtoint : List ℕ → Option ℕ) → (count : ℕ) → Result ℕ
new_value u kstrtoint count = int_input 32 u kstrtoint count

-- What a reader delivers of the two numbers that it has loaded; `decimal` and `unsigned_long` are what
-- %d and %lu print.
unfoldable pub reader_output :
    (decimal unsigned_long : ℕ → List ℕ)
    → UserMemory
    → (kernel_buffer : List ℕ) (local_data local_time : ℕ) → Access Once
reader_output decimal unsigned_long u kernel_buffer local_data local_time =
    print_once 128 u kernel_buffer (
      codes "Data: "
      ++ (decimal local_data
          ++ (codes " (updated at jiffies: " ++ (unsigned_long local_time ++ codes ")\n"))))

unfoldable pub rw_lock_init : (jiffies : ℕ) (reader writer : Bool) → Boot SharedData
rw_lock_init jiffies reader writer =
    if not reader
    then stop (fresh_data 0) (err enomem)
    else acquire proc_entry
      ▷ (if not writer
          then release proc_entry ▷ stop (fresh_data 0) (err enomem)
          else acquire proc_entry ▷ stop (fresh_data jiffies) (ok 0))

unfoldable pub rw_lock_exit : SharedData → List Event
rw_lock_exit s = release proc_entry ∷ release proc_entry ∷ []
