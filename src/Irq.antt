-- ===== src/Irq.antt =====
-- examples/class_5/00_threaded_irq_demo/threaded_irq_demo.c: the primary handler of an interrupt and
-- its thread handler. They run in the interrupt, in the interrupt's thread, and in any process that
-- writes to the /proc file, at the same time; a step is one access to what they share. An int wraps
-- at 2 ^ 32.
use kernel_programming.Base.{
  ℕ, zero, suc, ◌+◌, ◌-◌, ◌%◌, ◌^◌, ◌<◌, ◌≡◌, Bool, true, false, not, Option, none, some, List, [],
  ◌∷◌, ltb, ◌==◌, if◌then◌else◌, Errno, enomem, einval, efault, eperm, Result, ok, err,
}
use kernel_programming.Kernel.User.{UserMemory}
use kernel_programming.Kernel.Input.{int_input}
use kernel_programming.Kernel.Family.{update}
use kernel_programming.Kernel.Resources.{Boot, Event, acquire, release, ◌▷◌, stop, irq, proc_entry}
pub mod Invariant
pub mod Counts
pub mod Work

pub record IrqState : Type 0 where
  pub irq_counter : ℕ
  pub primary_handler_count : ℕ
  pub thread_handler_count : ℕ
  pub shared_counter : ℕ
  pub shared_data_mutex : Bool
  -- The kernel's mark that the interrupt's thread is to run. Interrupts that come before it runs
  -- share one run.
  pub wake_thread : Bool

abbrev pub fresh_irq : IrqState
fresh_irq = record {
  irq_counter = 0;
  primary_handler_count = 0;
  thread_handler_count = 0;
  shared_counter = 0;
  shared_data_mutex = false;
  wake_thread = false;
}

-- Why the primary handler runs: a write of 1, a write of 2, or the interrupt.
pub data Origin : Type 0 where
  primary_only full hardware : Origin

pub data Place : Type 0 where
  idle : Place
  entered : Origin → Place  -- start of `my_interrupt`
  counted : Origin → Place  -- behind its atomic_inc
  loaded : Origin → ℕ → Place  -- between the load and the store of irq_counter++
  thread : Place  -- start of `my_threaded_interrupt`
  thread_counted : Place  -- behind its atomic_inc
  locked : Place  -- with the mutex
  thread_loaded : ℕ → Place  -- between the load and the store of shared_counter++
  stored : Place  -- before mutex_unlock

abbrev pub next_int : ℕ → ℕ
next_int n = (n + 1) % 2 ^ 32

-- What the primary handler's return leads to: IRQ_WAKE_THREAD wakes the interrupt's thread, and a
-- write of 2 calls the thread handler itself.
abbrev pub after_primary : Origin → Place
after_primary primary_only = idle
after_primary full = thread
after_primary hardware = idle

abbrev pub wakes : Origin → Bool → Bool
wakes hardware w = true
wakes primary_only w = w
wakes full w = w

pub data Move (s : IrqState) : Place → IrqState → Place → Type 0 where
  trigger : (o : Origin) → Move s idle s (entered o)
  count_primary :
      {o : Origin}
      → Move s
          (entered o)
          (record s { primary_handler_count = next_int s.primary_handler_count })
          (counted o)
  load_irq_counter : {o : Origin} → Move s (counted o) s (loaded o s.irq_counter)
  store_irq_counter :
      {o : Origin} {n : ℕ}
      → Move s
          (loaded o n)
          (record s { irq_counter = next_int n; wake_thread = wakes o s.wake_thread })
          (after_primary o)
  run_thread : s.wake_thread ≡ true → Move s idle (record s { wake_thread = false }) thread
  count_thread :
      Move s thread
        (record s { thread_handler_count = next_int s.thread_handler_count })
        thread_counted
  lock :
      s.shared_data_mutex ≡ false
      → Move s thread_counted (record s { shared_data_mutex = true }) locked
  load_shared_counter : Move s locked s (thread_loaded s.shared_counter)
  store_shared_counter :
      {n : ℕ} → Move s (thread_loaded n) (record s { shared_counter = next_int n }) stored
  unlock : Move s stored (record s { shared_data_mutex = false }) idle

pub record System : Type 0 where
  pub shared : IrqState
  pub place : ℕ → Place

pub data Step (n : ℕ) (s : System) : System → Type 0 where
  step :
      (i : ℕ) {t : IrqState} {p : Place}
      → i < n
      → Move s.shared (s.place i) t p
      → Step n s (record { shared = t; place = update s.place i p })

abbrev pub init : System
init = record { shared = fresh_irq; place = λ i. idle }

-- What `n` executions reach in `k` steps.
pub data Reach (n : ℕ) : (k : ℕ) → System → Type 0 where
  start : Reach n 0 init
  later : {k : ℕ} {s t : System} → Reach n k s → Step n s t → Reach n (suc k) t

-- The switch of the write handler: which handlers are called.
abbrev pub origin_of : Result ℕ → Result Origin
origin_of (err e) = err e
origin_of (ok value) =
    if value == 1 then ok primary_only else if value == 2 then ok full else err einval

unfoldable pub advanced_threaded_irq_proc_write :
    UserMemory → (kstrtoint : List ℕ → Option ℕ) → (count : ℕ) → Result Origin
advanced_threaded_irq_proc_write u kstrtoint count = origin_of (int_input 8 u kstrtoint count)

-- for (i = 0; i < 10000; i++) result += i, from `i` on, for `rounds` rounds.
unfoldable pub complex_loop : (rounds i result : ℕ) → ℕ
complex_loop zero i result = result
complex_loop (suc rounds) i result = complex_loop rounds (i + 1) ((result + i) % 2 ^ 32)

unfoldable pub my_init : (request_threaded_irq proc_create : Bool) → Boot IrqState
my_init request_threaded_irq proc_create =
    if not request_threaded_irq
    then stop fresh_irq (err eperm)
    else acquire irq
      ▷ (if not proc_create
          then release irq ▷ stop fresh_irq (err enomem)
          else acquire proc_entry ▷ stop fresh_irq (ok 0))

unfoldable pub my_exit : IrqState → List Event
my_exit s = release proc_entry ∷ release irq ∷ []
