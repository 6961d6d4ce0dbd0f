-- ===== src/Procfs.antt =====
-- examples/class_3/01_basic_procfs/proc_example.c: a file that greets its reader, and takes what is
-- written to it. Both handlers use the one buffer of the module.
use kernel_programming.Base.{
  ℕ, ◌+◌, ◌-◌, List, [], ◌∷◌, ◌++◌, codes, write_at, replicate, ltb, ◌==◌, if◌then◌else◌, Bool, not,
  some, none, Option, Access, ◌>>=◌, Result, ok, err, einval, efault, enomem,
}
use kernel_programming.Kernel.User.{UserMemory}
use kernel_programming.Kernel.Reading.{Reading}
use kernel_programming.Kernel.Once.{Once, print_once, at_end}
use kernel_programming.Kernel.Resources.{
  Boot, Event, acquire, release, ◌▷◌, stop, buffer, proc_entry,
}
pub mod Greeting

abbrev pub max_size : ℕ
max_size = 1024

-- `decimal` is what %d prints.
abbrev pub greeting : (decimal : ℕ → List ℕ) (pid : ℕ) → List ℕ
greeting decimal pid = codes "Hello from kernel! PID: " ++ (decimal pid ++ codes "\n")

-- The buffer is `kernel_buffer`; the count that is asked for is not looked at.
unfoldable pub proc_read :
    (decimal : ℕ → List ℕ)
    → UserMemory
    → (pid count pos : ℕ) → (kernel_buffer : List ℕ) → Access Once
proc_read decimal u pid count pos kernel_buffer =
    if ltb 0 pos
    then some (record { buffer = kernel_buffer; reading = at_end pos })
    else print_once max_size u kernel_buffer (greeting decimal pid)

unfoldable pub proc_write :
    UserMemory → (count : ℕ) → (kernel_buffer : List ℕ) → Access (List ℕ × Result ℕ)
proc_write u count kernel_buffer =
    if ltb (max_size - 1) count then some (kernel_buffer, err einval) else do
      kernel_buffer ← write_at kernel_buffer 0 (u.from_user count)
      (if not (u.from_left count == 0) then some (kernel_buffer, err efault) else (do
        kernel_buffer ← write_at kernel_buffer count (0 ∷ [])
        some (kernel_buffer, ok count)))

-- Whether the buffer and the /proc entry can be made. The state is `kernel_buffer`.
unfoldable pub proc_init : (kzalloc proc_create : Bool) → Boot (Option (List ℕ))
proc_init kzalloc proc_create =
    if not kzalloc
    then stop none (err enomem)
    else acquire buffer
      ▷ (if not proc_create
          then release buffer ▷ stop (some (replicate max_size 0)) (err enomem)
          else acquire proc_entry ▷ stop (some (replicate max_size 0)) (ok 0))

unfoldable pub proc_exit : Option (List ℕ) → List Event
proc_exit kernel_buffer = release proc_entry ∷ release buffer ∷ []
