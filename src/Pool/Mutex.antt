-- ===== src/Pool/Mutex.antt =====
-- mutex_sem_demo.c: the data behind the mutex, `mutex_demo_read`, `status_read` and loading. The
-- mutex makes calls follow one another; the status is read with no lock, at one moment.
use kernel_programming.Base.{
  ℕ, ◌+◌, ◌-◌, ◌%◌, ◌^◌, List, [], ◌∷◌, ◌++◌, codes, replicate, strlen, read_at, ltb, if◌then◌else◌,
  Bool, not, ◌||◌, Access, some, ◌>>=◌, ok, err, enomem, erestartsys,
}
use kernel_programming.Kernel.User.{UserMemory}
use kernel_programming.Kernel.Reading.{Reading}
use kernel_programming.Kernel.Once.{snprintf, print_once, at_end, failing}
use kernel_programming.Kernel.Resources.{Boot, Event, acquire, release, ◌▷◌, stop, proc_entry}
use kernel_programming.Pool.{Resources, max_resources}

-- `shared_data` is the 32 bits of an int.
pub record MutexData : Type 0 where
  pub shared_data : ℕ
  pub shared_message : List ℕ

abbrev pub message_size : ℕ
message_size = 64

abbrev pub output_size : ℕ
output_size = 256

abbrev pub fresh_data : MutexData
fresh_data = record { shared_data = 0; shared_message = codes "Initial state" ++ replicate 51 0 }

-- What %s prints: it reads to the NUL, and faults where there is none.
unfoldable pub printed : List ℕ → Access (List ℕ)
printed cs = strlen cs >>= λ n. read_at cs 0 n

-- shared_data += current->pid % 100
abbrev pub added : (pid : ℕ) → MutexData → ℕ
added pid m = (m.shared_data + pid % 100) % 2 ^ 32

pub record Served : Type 0 where
  pub demo : MutexData
  pub reading : Reading

-- `decimal` is what %d prints for the bits of an int.
module _ (decimal : ℕ → List ℕ) where
  abbrev pub pid_message : (pid : ℕ) → List ℕ
  pid_message pid = codes "Updated by PID " ++ decimal pid

  abbrev pub mutex_text : (value pid : ℕ) (msg : List ℕ) → List ℕ
  mutex_text value pid msg =
      codes "=== Mutex Demo ===\nShared data: "
      ++ (decimal value
          ++ (codes "\nMessage: "
              ++ (msg
                  ++ (codes "\nPID: "
                      ++ (decimal pid ++ codes "\nMutex allows sleeping in critical section\n")))))

  abbrev pub status_text : (value users id : ℕ) (msg : List ℕ) → List ℕ
  status_text value users id msg =
      codes "=== Mutex & Semaphore Status ===\nShared data: "
      ++ (decimal value
          ++ (codes "\nShared message: "
              ++ (msg
                  ++ (codes "\nActive resource users: "
                      ++ (decimal users
                          ++ (codes "/"
                              ++ (decimal max_resources
                                  ++ (codes "\nResource counter: "
                                      ++ (decimal id
                                          ++ codes
                                              "\n\nUsage:\ncat /proc/sync_demo/mutex    - Test mutex\ncat /proc/sync_demo/semaphore - Test semaphore\n")))))))))

  -- `output` is what the handler's buffer holds before; `interrupted` is whether a signal comes
  -- while the process waits for the mutex.
  unfoldable pub mutex_demo_read :
      (u : UserMemory) (interrupted : Bool) (pid pos : ℕ) (output : List ℕ)
      → MutexData
      → Access Served
  mutex_demo_read u interrupted pid pos output m =
      if ltb 0 pos
      then some (record { demo = m; reading = at_end pos })
      else if interrupted
      then some (record { demo = m; reading = failing pos (err erestartsys) })
      else do
        message ← snprintf m.shared_message message_size (pid_message pid)
        local_msg ← printed message
        once ← print_once output_size u output (mutex_text (added pid m) pid local_msg)
        some (record {
          demo = record { shared_data = added pid m; shared_message = message };
          reading = once.reading;
        })

  unfoldable pub status_read :
      (u : UserMemory) (pos : ℕ) (output : List ℕ) → MutexData → Resources → Access Reading
  status_read u pos output m r = if ltb 0 pos then some (at_end pos) else do
    msg ← printed m.shared_message
    once ← print_once output_size u output (
        status_text m.shared_data r.active_users ((r.resource_id_counter + 2 ^ 32 - 1) % 2 ^ 32)
          msg)
    some once.reading

-- Whether the directory and its three entries can be made. proc_remove takes a whole directory.
unfoldable pub mutex_sem_init : (proc_mkdir mutex semaphore status : Bool) → Boot MutexData
mutex_sem_init proc_mkdir mutex semaphore status =
    if not proc_mkdir
    then stop fresh_data (err enomem)
    else acquire proc_entry
      ▷ (if not mutex || (not semaphore || not status)
          then release proc_entry ▷ stop fresh_data (err enomem)
          else stop fresh_data (ok 0))

unfoldable pub mutex_sem_exit : MutexData → List Event
mutex_sem_exit m = release proc_entry ∷ []
