-- ===== src/Deferred/Quiet.antt =====
-- What the exit functions of the modules with deferred work leave behind.
use kernel_programming.Base.{
  ℕ, ◌≡◌, refl, List, [], ◌∷◌, Bool, true, false, inl, inr, Bool-cases, ltb, leb, ◌||◌, ◌^◌,
}
use kernel_programming.Deferred.{
  Item, timer, hrtimer, tasklet, hi_tasklet, work, delayed_work, among, Module, State, Reach,
}
use kernel_programming.Deferred.Exit.{Targets, Reach-quiet}
use kernel_programming.Deferred.Demos.{
  timer_demo, timer_demo_fire, work_demo, work_fire, top_bottom_demo, top_bottom_fire, softirq_demo,
  time_demo, periodic_fire, basic_timer, basic_fire,
}

pub data Demo : Type 0 where
  is_timer_demo is_work_demo is_top_bottom_demo is_softirq_demo is_time_demo is_basic_timer : Demo

abbrev pub module_of : Demo → Module
module_of is_timer_demo = timer_demo
module_of is_work_demo = work_demo
module_of is_top_bottom_demo = top_bottom_demo
module_of is_softirq_demo = softirq_demo
module_of is_time_demo = time_demo
module_of is_basic_timer = basic_timer

-- Callbacks that schedule the same at each run.
abbrev constant : (m : Module) → ((i : Item) (n : ℕ) → m.fire i n ≡ m.fire i 0) → Targets m
constant m h = record {
  targets = λ i. m.fire i 0;
  within = λ i j n among_it. rw (h i n) at among_it;
}

timer_demo-constant : (i : Item) (n : ℕ) → timer_demo_fire i n ≡ timer_demo_fire i 0
timer_demo-constant timer n = refl
timer_demo-constant i n = refl

work-constant : (i : Item) (n : ℕ) → work_fire i n ≡ work_fire i 0
work-constant timer n = refl
work-constant i n = refl

top_bottom-constant : (i : Item) (n : ℕ) → top_bottom_fire i n ≡ top_bottom_fire i 0
top_bottom-constant timer n = refl
top_bottom-constant i n = refl

periodic-constant : (i : Item) (n : ℕ) → periodic_fire i n ≡ periodic_fire i 0
periodic-constant timer n = refl
periodic-constant i n = refl

abbrev basic_targets : Item → List Item
basic_targets timer = timer ∷ []
basic_targets _ = []

basic-within :
    (i j : Item) (n : ℕ) → among j (basic_fire i n) ≡ true → among j (basic_targets i) ≡ true
basic-within timer j n h = elim (Bool-cases (ltb n 5 || leb (2 ^ 31) n)) [
  | inl e ↦ rw e at h
  | inr e ↦ absurd (let none : false ≡ true = rw e at h in cc)
]
basic-within i j n h = h

abbrev targets_of : (d : Demo) → Targets (module_of d)
targets_of is_timer_demo = constant timer_demo timer_demo-constant
targets_of is_work_demo = constant work_demo work-constant
targets_of is_top_bottom_demo = constant top_bottom_demo top_bottom-constant
targets_of is_softirq_demo = constant softirq_demo periodic-constant
targets_of is_time_demo = constant time_demo periodic-constant
targets_of is_basic_timer = record { targets = basic_targets; within = basic-within }

-- The items that a module does not have.
abbrev unused_of : Demo → Item → Bool
unused_of is_timer_demo i = among i (hi_tasklet ∷ delayed_work ∷ [])
unused_of is_work_demo i = among i (hrtimer ∷ tasklet ∷ hi_tasklet ∷ [])
unused_of is_top_bottom_demo i = among i (hrtimer ∷ tasklet ∷ hi_tasklet ∷ delayed_work ∷ [])
unused_of _ i = among i (hrtimer ∷ tasklet ∷ hi_tasklet ∷ work ∷ delayed_work ∷ [])

-- In any interleaving of the exit function's calls with callbacks and users, for each of the six
-- demos (timers with interrupts, work queues, top and bottom half, softirqs, jiffies, and the basic
-- timer): when the exit function has made its calls, no callback is pending, and no file leads to
-- the module.
pub exit-quiet :
    (d : Demo) (s : State)
    → Reach (module_of d) s
    → s.todo ≡ []
    → ((i : Item) → s.pending i ≡ false) × (s.file ≡ false)
exit-quiet is_timer_demo s r e =
    Reach-quiet timer_demo (targets_of is_timer_demo) (unused_of is_timer_demo) s refl r e
exit-quiet is_work_demo s r e =
    Reach-quiet work_demo (targets_of is_work_demo) (unused_of is_work_demo) s refl r e
exit-quiet is_top_bottom_demo s r e =
    Reach-quiet top_bottom_demo (targets_of is_top_bottom_demo) (unused_of is_top_bottom_demo) s
      refl r e
exit-quiet is_softirq_demo s r e =
    Reach-quiet softirq_demo (targets_of is_softirq_demo) (unused_of is_softirq_demo) s refl r e
exit-quiet is_time_demo s r e =
    Reach-quiet time_demo (targets_of is_time_demo) (unused_of is_time_demo) s refl r e
exit-quiet is_basic_timer s r e =
    Reach-quiet basic_timer (targets_of is_basic_timer) (unused_of is_basic_timer) s refl r e
