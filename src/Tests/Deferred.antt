-- ===== src/Tests/Deferred.antt =====
-- Runs of the modules with deferred work, with the exit function and the callbacks interleaved.
use kernel_programming.Base.{◌≤◌, ◌≡◌, refl, true, false, [], ◌∷◌, ltb}
use kernel_programming.Deferred.{
  Item, timer, tasklet, hi_tasklet, hrtimer, work, kill, remove_file, remove_created, State,
  run_item, torn_down, run, write, exit_call, scheduled, init, Reach, start, later,
}
use kernel_programming.Deferred.Demos.{
  top_bottom_demo, basic_timer, simple_timer, tasklet_demo, cleanup_timers, timer_irq,
}
use kernel_programming.Deferred.Quiet.{is_top_bottom_demo, exit-quiet}
use kernel_programming.Deferred.Timers.{basic_timer-five, simple_timer-file_left}

-- The timer has scheduled the bottom half, which is flushed after the timer is stopped.
abbrev flushed : State
flushed = torn_down remove_file [] (
    torn_down (kill work) (remove_file ∷ []) (
      torn_down (kill timer) (kill work ∷ remove_file ∷ [])
        (run_item top_bottom_demo timer (init top_bottom_demo))))

flushed-Reach : Reach top_bottom_demo flushed
flushed-Reach =
    later
      (later (later (later start (run timer refl)) (exit_call (kill timer) _ refl))
        (exit_call (kill work) _ refl))
      (exit_call remove_file [] refl)

exit-quiet_example : ((i : Item) → flushed.pending i ≡ false) × (flushed.file ≡ false)
exit-quiet_example = exit-quiet is_top_bottom_demo flushed flushed-Reach refl

abbrev fired_twice : State
fired_twice = run_item basic_timer timer (run_item basic_timer timer (init basic_timer))

basic_timer-five_example :
    (fired_twice.counts timer ≤ 5) × (fired_twice.pending timer ≡ ltb (fired_twice.counts timer) 5)
basic_timer-five_example =
    basic_timer-five fired_twice (later (later start (run timer refl)) (run timer refl)) refl

abbrev unloaded : State
unloaded = torn_down remove_created [] (
    torn_down (kill hrtimer) (remove_created ∷ [])
      (torn_down (kill timer) (kill hrtimer ∷ remove_created ∷ []) (init simple_timer)))

simple_timer-file_left_example : ((i : Item) → unloaded.pending i ≡ false) × (unloaded.file ≡ true)
simple_timer-file_left_example =
    simple_timer-file_left unloaded
      (later (later (later start (exit_call (kill timer) _ refl)) (exit_call (kill hrtimer) _ refl))
        (exit_call remove_created [] refl))
      refl

-- A user writes 1 between tasklet_kill and proc_remove: the tasklet is pending when the exit
-- function is done.
abbrev written_late : State
written_late =
    let s1 =
      torn_down (kill timer) (kill tasklet ∷ kill hi_tasklet ∷ remove_file ∷ [])
        (init tasklet_demo) in
    let s2 = torn_down (kill tasklet) (kill hi_tasklet ∷ remove_file ∷ []) s1 in
    let s3 : State = record s2 { pending = scheduled (tasklet ∷ []) s2.pending } in
    torn_down remove_file [] (torn_down (kill hi_tasklet) (remove_file ∷ []) s3)

tasklet_left :
    Reach tasklet_demo written_late
    × (written_late.todo ≡ [])
    × (written_late.pending tasklet ≡ true)
tasklet_left = (
  later
      (later
        (later
          (later (later start (exit_call (kill timer) _ refl)) (exit_call (kill tasklet) _ refl))
          (write tasklet refl refl))
        (exit_call (kill hi_tasklet) _ refl))
      (exit_call remove_file [] refl),
  refl,
  refl,
)

-- The failed initialisation of the timer demo, where the timer has run before it is deleted: the
-- tasklet is pending at the end.
abbrev failed_late : State
failed_late = torn_down (kill work) [] (
    torn_down (kill hrtimer) (kill work ∷ []) (
      torn_down (kill timer) (kill hrtimer ∷ kill work ∷ [])
        (run_item cleanup_timers timer (init cleanup_timers))))

cleanup_left :
    Reach cleanup_timers failed_late
    × (failed_late.todo ≡ [])
    × (failed_late.pending tasklet ≡ true)
cleanup_left = (
  later
      (later (later (later start (run timer refl)) (exit_call (kill timer) _ refl))
        (exit_call (kill hrtimer) _ refl))
      (exit_call (kill work) [] refl),
  refl,
  refl,
)

-- The file is opened between del_timer_sync and proc_remove: the timer is pending when the exit
-- function is done.
abbrev opened_late : State
opened_late =
    let s1 : State = torn_down (kill timer) (remove_file ∷ []) (init timer_irq) in
    let s2 : State = record s1 { pending = scheduled (timer ∷ []) s1.pending } in
    torn_down remove_file [] s2

timer_left :
    Reach timer_irq opened_late × (opened_late.todo ≡ []) × (opened_late.pending timer ≡ true)
timer_left = (
  later (later (later start (exit_call (kill timer) _ refl)) (write timer refl refl))
      (exit_call remove_file [] refl),
  refl,
  refl,
)
