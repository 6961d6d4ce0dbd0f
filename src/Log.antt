-- ===== src/Log.antt =====
-- examples/class_3/02_advanced_procfs/pos_demo.c: a log of at most 100 entries in an array, written
-- through /proc and read entry by entry through the seq_file operations.
use kernel_programming.Base.{
  ℕ, zero, suc, ◌+◌, ◌-◌, ◌%◌, ◌^◌, Bool, true, false, not, Option, none, some, List, [], ◌∷◌, ◌++◌,
  ltb, leb, ◌==◌, if◌then◌else◌, take, replicate, get_elem?, until_nul, codes, Errno, enomem,
  einval, efault, Result, ok, err, Access, ◌>>=◌, read_at, write_at,
}
use kernel_programming.Kernel.User.{UserMemory}
pub mod Window
pub mod Traversal
pub mod Writing

abbrev pub max_log_entries : ℕ
max_log_entries = 100

-- `struct log_entry`; `message` is the string that the field holds.
pub record LogEntry : Type 0 where
  pub timestamp : ℕ
  pub entry_id : ℕ
  pub message : List ℕ

-- The module's static data: the whole array, the number of entries in use, and the next id.
pub record VirtualLog : Type 0 where
  pub log_buffer : List LogEntry
  pub log_count : ℕ
  pub next_id : ℕ

abbrev pub blank : LogEntry
blank = record { timestamp = 0; entry_id = 0; message = [] }

abbrev pub empty_log : VirtualLog
empty_log = record { log_buffer = replicate max_log_entries blank; log_count = 0; next_id = 1 }

-- The fields that both branches fill in. `message` is the caller's C string.
abbrev pub new_entry : (jiffies id : ℕ) → List ℕ → LogEntry
new_entry jiffies id message = record {
  timestamp = jiffies;
  entry_id = id;
  message = take 63 message;
}

unfoldable pub add_log_entry : (jiffies : ℕ) → List ℕ → VirtualLog → Access VirtualLog
add_log_entry jiffies message log =
    let entry : LogEntry = new_entry jiffies log.next_id message in
    let next : ℕ = (log.next_id + 1) % 2 ^ 32 in
    if ltb log.log_count max_log_entries
    then (do
      buf ← write_at log.log_buffer log.log_count (entry ∷ [])
      some (record { log_buffer = buf; log_count = log.log_count + 1; next_id = next }))
    else (do
      moved ← read_at log.log_buffer 1 (max_log_entries - 1)
      buf ← write_at log.log_buffer 0 moved
      buf ← write_at buf (max_log_entries - 1) (entry ∷ [])
      some (record log { log_buffer = buf; next_id = next }))

-- The index of the entry that `log_seq_start` points to; `none` is NULL.
unfoldable pub log_seq_start : VirtualLog → (pos : ℕ) → Option ℕ
log_seq_start log pos = if leb log.log_count pos then none else some pos

-- The next position, and the entry there.
unfoldable pub log_seq_next : VirtualLog → (pos : ℕ) → ℕ × Option ℕ
log_seq_next log pos =
    let pos : ℕ = pos + 1 in (pos, if leb log.log_count pos then none else some pos)

-- The entry that is printed: `none` is a pointer outside the array.
unfoldable pub log_seq_show : VirtualLog → (v : ℕ) → Access LogEntry
log_seq_show log v = get_elem? log.log_buffer v

-- kernel_buffer[count - 1]: the index is a `size_t`.
abbrev pub last_index : ℕ → ℕ
last_index count = (count + 2 ^ 64 - 1) % 2 ^ 64

-- `none` is an access outside `kernel_buffer`.
unfoldable pub log_proc_write :
    UserMemory
    → (kmalloc : Bool) (jiffies : ℕ) → VirtualLog
    → (count : ℕ) → Access (VirtualLog × Result ℕ)
log_proc_write u kmalloc jiffies log count =
    if ltb 63 count
    then some (log, err einval)
    else if not kmalloc
    then some (log, err enomem)
    else if not (u.from_left count == 0)
    then some (log, err efault)
    else (do
      let kernel_buffer = u.from_user count ++ 0 ∷ []
      last ← get_elem? kernel_buffer (last_index count)
      kernel_buffer ←
          (if last == b'\n'
            then write_at kernel_buffer (last_index count) (0 ∷ [])
            else some kernel_buffer)
      log ← add_log_entry jiffies (until_nul kernel_buffer) log
      some (log, ok count))

-- The five entries of `pos_demo_init`, each at its time, and `proc_create`.
unfoldable pub pos_demo_init : (proc_create : Bool) (time : ℕ → ℕ) → Access (VirtualLog × Result ℕ)
unfolding add_log_entry
pos_demo_init proc_create time = do
  log ← add_log_entry (time 0) (codes "System started") empty_log
  log ← add_log_entry (time 1) (codes "Module loading") log
  log ← add_log_entry (time 2) (codes "Initialization complete") log
  log ← add_log_entry (time 3) (codes "Ready for operations") log
  log ← add_log_entry (time 4) (codes "First user access") log
  some (log, if proc_create then ok 0 else err enomem)
