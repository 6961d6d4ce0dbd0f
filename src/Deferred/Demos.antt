-- ===== src/Deferred/Demos.antt =====
-- The modules of examples/class_5 with deferred work: 08_IOCTL/ioctl_demo.c (timer_demo),
-- 04_work_queues/work_queues.c (work), 01_interrupt_processing/interrupt_processing.c (top_bottom),
-- 02_softirqs/raising_softirqs.c (softirq), 05_jiffies_conversions/jiffies_conversions.c (time),
-- 06_basic_timer/basic_timer.c (basic), 07_timer_implementation/timer_implementation.c (simple_timer)
-- and 03_tasklet/tasklet_proirity.c (tasklet_demo); and
-- examples/class_4/01_interrupt_demo/interrupt_demo.c (timer_irq).
use kernel_programming.Base.{
  ℕ, ◌%◌, ◌^◌, List, [], ◌∷◌, ltb, leb, ◌==◌, ◌||◌, if◌then◌else◌, true, false, Result, ok, err,
  einval, Option,
}
use kernel_programming.Kernel.User.{UserMemory}
use kernel_programming.Kernel.Input.{int_input}
use kernel_programming.Deferred.{
  Item, timer, hrtimer, tasklet, hi_tasklet, work, delayed_work, Teardown, kill, remove_file,
  remove_created, Module,
}

-- demo_timer_callback, with the interrupt handler that it calls, and hr_timer_callback.
abbrev pub timer_demo_fire : Item → (n : ℕ) → List Item
timer_demo_fire timer n = tasklet ∷ work ∷ timer ∷ []
timer_demo_fire hrtimer n = hrtimer ∷ []
timer_demo_fire _ n = []

-- flush_workqueue, and destroy_workqueue, which flushes again.
abbrev pub timer_demo_exit : List Teardown
timer_demo_exit =
    remove_file ∷ kill timer ∷ kill hrtimer ∷ kill tasklet ∷ kill work ∷ kill work ∷ []

abbrev pub timer_demo : Module
timer_demo = record {
  fire = timer_demo_fire;
  started = timer ∷ hrtimer ∷ [];
  writable = [];
  has_file = true;
  exit = timer_demo_exit;
}

-- The label cleanup_timers of `timer_demo_init`, where there is no file.
abbrev pub cleanup_timers : Module
cleanup_timers = record {
  fire = timer_demo_fire;
  started = timer ∷ hrtimer ∷ [];
  writable = [];
  has_file = false;
  exit = kill timer ∷ kill hrtimer ∷ kill work ∷ [];
}

-- schedule_work_timer, which queues `demo_work` to one queue or the other, and delayed_work_handler.
abbrev pub work_fire : Item → (n : ℕ) → List Item
work_fire timer n = work ∷ timer ∷ []
work_fire delayed_work n = delayed_work ∷ []
work_fire _ n = []

abbrev pub work_demo : Module
work_demo = record {
  fire = work_fire;
  started = delayed_work ∷ timer ∷ [];
  writable = [];
  has_file = true;
  exit = kill timer ∷ kill work ∷ kill delayed_work ∷ kill work ∷ remove_file ∷ [];
}

-- irq_simulator_callback, with the top half that it calls.
abbrev pub top_bottom_fire : Item → (n : ℕ) → List Item
top_bottom_fire timer n = work ∷ timer ∷ []
top_bottom_fire _ n = []

abbrev pub top_bottom_demo : Module
top_bottom_demo = record {
  fire = top_bottom_fire;
  started = timer ∷ [];
  writable = [];
  has_file = true;
  exit = kill timer ∷ kill work ∷ remove_file ∷ [];
}

-- A timer that sets itself again, and nothing else of the module: raise_softirq_timer and
-- time_callback.
abbrev pub periodic_fire : Item → (n : ℕ) → List Item
periodic_fire timer n = timer ∷ []
periodic_fire _ n = []

abbrev pub softirq_demo : Module
softirq_demo = record {
  fire = periodic_fire;
  started = timer ∷ [];
  writable = [];
  has_file = true;
  exit = kill timer ∷ remove_file ∷ [];
}

abbrev pub time_demo : Module
time_demo = record {
  fire = periodic_fire;
  started = timer ∷ [];
  writable = [];
  has_file = true;
  exit = kill timer ∷ remove_file ∷ [];
}

-- timer_callback, which sets the timer again while the count, an int, is below 5.
abbrev pub basic_fire : Item → (n : ℕ) → List Item
basic_fire timer n = if ltb n 5 || leb (2 ^ 31) n then timer ∷ [] else []
basic_fire _ n = []

abbrev pub basic_timer : Module
basic_timer = record {
  fire = basic_fire;
  started = timer ∷ [];
  writable = [];
  has_file = false;
  exit = kill timer ∷ [];
}

abbrev pub simple_timer_fire : Item → (n : ℕ) → List Item
simple_timer_fire timer n = timer ∷ []
simple_timer_fire hrtimer n = hrtimer ∷ []
simple_timer_fire _ n = []

abbrev pub simple_timer : Module
simple_timer = record {
  fire = simple_timer_fire;
  started = timer ∷ hrtimer ∷ [];
  writable = [];
  has_file = true;
  exit = kill timer ∷ kill hrtimer ∷ remove_created ∷ [];
}

-- schedule_tasklet_timer: the tasklet of high priority every second time.
abbrev pub tasklet_fire : Item → (n : ℕ) → List Item
tasklet_fire timer n =
    if n % 2 == 0 then hi_tasklet ∷ tasklet ∷ timer ∷ [] else tasklet ∷ timer ∷ []
tasklet_fire _ n = []

-- The switch of `tasklet_proc_write`.
abbrev pub chosen : Result ℕ → Result Item
chosen (err e) = err e
chosen (ok value) =
    if value == 1 then ok tasklet else if value == 2 then ok hi_tasklet else err einval

unfoldable pub tasklet_proc_write :
    UserMemory → (kstrtoint : List ℕ → Option ℕ) → (count : ℕ) → Result Item
tasklet_proc_write u kstrtoint count = chosen (int_input 8 u kstrtoint count)

abbrev pub tasklet_demo : Module
tasklet_demo = record {
  fire = tasklet_fire;
  started = timer ∷ [];
  writable = tasklet ∷ hi_tasklet ∷ [];
  has_file = true;
  exit = kill timer ∷ kill tasklet ∷ kill hi_tasklet ∷ remove_file ∷ [];
}

-- timer_callback, which counts an interrupt.
abbrev pub timer_irq_fire : Item → (n : ℕ) → List Item
timer_irq_fire i n = []

-- proc_open sets the timer.
abbrev pub timer_irq : Module
timer_irq = record {
  fire = timer_irq_fire;
  started = [];
  writable = timer ∷ [];
  has_file = true;
  exit = kill timer ∷ remove_file ∷ [];
}
