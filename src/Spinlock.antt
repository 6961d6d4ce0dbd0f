-- ===== src/Spinlock.antt =====
-- examples/class_3/06_spinlock_demo/spinlock_demo.c: a number and the count of its operations. The
-- handlers touch them in one critical section each, which the spin lock makes follow one another;
-- all else that they use is their own, so a call is one step.
use kernel_programming.Base.{
  ℕ, ◌+◌, ◌%◌, ◌^◌, List, [], ◌∷◌, ◌++◌, codes, ltb, if◌then◌else◌, Bool, not, Option, some, none,
  Access, ◌>>=◌, Result, ok, err, enomem,
}
use kernel_programming.Kernel.User.{UserMemory}
use kernel_programming.Kernel.Reading.{Reading}
use kernel_programming.Kernel.Once.{Once, print_once, at_end, failing}
use kernel_programming.Kernel.Input.{int_input}
use kernel_programming.Kernel.Resources.{Boot, Event, acquire, release, ◌▷◌, stop, proc_entry}
pub mod Account

-- The 32 bits of an int, and an unsigned long.
pub record SharedData : Type 0 where
  pub shared_data : ℕ
  pub operation_count : ℕ

abbrev pub fresh_data : SharedData
fresh_data = record { shared_data = 0; operation_count = 0 }

abbrev pub counted : SharedData → SharedData
counted s = record s { operation_count = (s.operation_count + 1) % 2 ^ 64 }

-- `decimal` and `unsigned_long` are what %d and %lu print.
abbrev pub spinlock_text : (decimal unsigned_long : ℕ → List ℕ) → SharedData → List ℕ
spinlock_text decimal unsigned_long s =
    codes "Shared data: "
    ++ (decimal s.shared_data
        ++ (codes "\nOperations: " ++ (unsigned_long s.operation_count ++ codes "\n")))

-- `memory` is what kmalloc answers: the 256 bytes, or no memory.
unfoldable pub spinlock_read :
    (decimal unsigned_long : ℕ → List ℕ)
    → UserMemory
    → (memory : Option (List ℕ)) → (count pos : ℕ) → SharedData
    → Access (SharedData × Reading)
spinlock_read decimal unsigned_long u memory count pos s =
    if ltb 0 pos then some (s, at_end pos) else elim memory [
      | none ↦ some (s, failing pos (err enomem))
      | some kernel_buffer ↦ do
        once ← print_once 256 u kernel_buffer (spinlock_text decimal unsigned_long (counted s))
        some (counted s, once.reading)
    ]

abbrev pub stored : (count : ℕ) → SharedData → Result ℕ → SharedData × Result ℕ
stored count s (err e) = (s, err e)
stored count s (ok value) = (record (counted s) { shared_data = value }, ok count)

unfoldable pub spinlock_write :
    UserMemory → (kstrtoint : List ℕ → Option ℕ) → (count : ℕ) → SharedData → SharedData × Result ℕ
spinlock_write u kstrtoint count s = stored count s (int_input 32 u kstrtoint count)

unfoldable pub spinlock_init : (proc_create : Bool) → Boot SharedData
spinlock_init proc_create =
    if not proc_create
    then stop fresh_data (err enomem)
    else acquire proc_entry ▷ stop fresh_data (ok 0)

unfoldable pub spinlock_exit : SharedData → List Event
spinlock_exit s = release proc_entry ∷ []
