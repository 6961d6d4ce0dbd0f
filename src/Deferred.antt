-- ===== src/Deferred.antt =====
-- Deferred work of the modules in examples/class_5 and of one in examples/class_4: timers, tasklets
-- and work items whose callbacks run later, and may schedule others. What such a module has to get
-- right is its exit: callbacks run while the exit function makes its calls, and none may be left when
-- the module's code is gone. Each callback adds one to a count of its own; a step is a callback, a
-- user's use of the module's file, or a call of the exit function. The counts are ints, and wrap at
-- 2 ^ 32.
use kernel_programming.Base.{
  ℕ, ◌+◌, ◌%◌, ◌^◌, ◌≡◌, List, [], ◌∷◌, ◌==◌, if◌then◌else◌, Bool, true, false, not, ◌&&◌, ◌||◌,
}
pub mod Exit
pub mod Demos
pub mod Quiet
pub mod Timers

pub data Item : Type 0 where
  timer hrtimer tasklet hi_tasklet work delayed_work : Item

abbrev pub tag : Item → ℕ
tag timer = 0
tag hrtimer = 1
tag tasklet = 2
tag hi_tasklet = 3
tag work = 4
tag delayed_work = 5

abbrev pub same : Item → Item → Bool
same i j = tag i == tag j

abbrev pub among : Item → List Item → Bool
among i [] = false
among i (j ∷ js) = same i j || among i js

abbrev pub all_items : (Item → Bool) → Bool
all_items p = p timer && (p hrtimer && (p tasklet && (p hi_tasklet && (p work && p delayed_work))))

-- A call of an exit function: one that waits for a callback and lets none of that item follow
-- (del_timer_sync, hrtimer_cancel, tasklet_kill, cancel_work_sync, flush_work, destroy_workqueue), or
-- proc_remove, which waits for the users of the file. A run that some of them wait for is a step before
-- the call.
pub data Teardown : Type 0 where
  kill : Item → Teardown
  remove_file : Teardown
  remove_created : Teardown  -- proc_remove(proc_create(..)), with the name of the file

-- proc_create of a name: the file is there afterwards, and the entry is NULL where it was before.
abbrev pub proc_create : (file : Bool) → Bool × Bool
proc_create file = if file then (true, false) else (true, true)

-- proc_remove of an entry of that name, which does nothing for NULL: whether the file is there.
abbrev pub proc_remove : (entry file : Bool) → Bool
proc_remove entry file = if entry then false else file

pub record Module : Type 0 where
  -- What an item's callback schedules when it runs for the n-th time, itself included.
  pub fire : Item → (n : ℕ) → List Item
  -- What the initialisation schedules, and what a user can, by a write to the file or opening it.
  pub started : List Item
  pub writable : List Item
  pub has_file : Bool
  pub exit : List Teardown

pub record State : Type 0 where
  pub counts : Item → ℕ
  -- Scheduled, and not yet run. Scheduling what is scheduled already changes nothing.
  pub pending : Item → Bool
  pub file : Bool
  -- The calls that the exit function has still to make.
  pub todo : List Teardown

abbrev pub count_up : Item → (Item → ℕ) → Item → ℕ
count_up i counts j = if same j i then (counts j + 1) % 2 ^ 32 else counts j

abbrev pub cleared : Item → (Item → Bool) → Item → Bool
cleared i pending j = not (same j i) && pending j

abbrev pub scheduled : List Item → (Item → Bool) → Item → Bool
scheduled is pending j = among j is || pending j

abbrev pub run_item : Module → Item → State → State
run_item m i s =
    let n : ℕ = (s.counts i + 1) % 2 ^ 32 in
    record s {
      counts = count_up i s.counts;
      pending = scheduled (m.fire i n) (cleared i s.pending);
    }

abbrev pub torn_down : Teardown → (rest : List Teardown) → State → State
torn_down (kill i) rest s = record s { pending = cleared i s.pending; todo = rest }
torn_down remove_file rest s = record s { file = proc_remove true s.file; todo = rest }
torn_down remove_created rest s =
    let (file, entry) = proc_create s.file in
    record s { file = proc_remove entry file; todo = rest }

pub data Step (m : Module) (s : State) : State → Type 0 where
  run : (i : Item) → s.pending i ≡ true → Step m s (run_item m i s)
  write :
      (i : Item)
      → s.file ≡ true
      → among i m.writable ≡ true
      → Step m s (record s { pending = scheduled (i ∷ []) s.pending })
  exit_call :
      (t : Teardown) (rest : List Teardown) → s.todo ≡ t ∷ rest → Step m s (torn_down t rest s)

abbrev pub init : Module → State
init m = record {
  counts = λ i. 0;
  pending = λ i. among i m.started;
  file = m.has_file;
  todo = m.exit;
}

pub data Reach (m : Module) : State → Type 0 where
  start : Reach m (init m)
  later : {s t : State} → Reach m s → Step m s t → Reach m t
