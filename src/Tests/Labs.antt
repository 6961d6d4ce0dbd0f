-- ===== src/Tests/Labs.antt =====
-- The names of states with the constants of include/linux/sched.h.
use kernel_programming.Base.{◌≡◌, ◌≢◌, refl, codes, [], ◌∷◌}
use kernel_programming.Labs.{Constants, Task, get_state_name, get_policy_name, proc_show}
use kernel_programming.Labs.Names.{get_state_name-running}

abbrev constants : Constants
constants = record {
  task_running = 0;
  task_interruptible = 1;
  task_uninterruptible = 2;
  task_stopped = 0x104;
  task_traced = 8;
  exit_zombie = 0x20;
  exit_dead = 0x10;
  sched_normal = 0;
  sched_fifo = 1;
  sched_rr = 2;
  sched_batch = 3;
  sched_idle = 5;
  sched_deadline = 6;
}

get_state_name-running_example :
    (get_state_name constants 1 ≢ codes "TASK_RUNNING")
    × (get_state_name constants 0 ≡ codes "unknown")
get_state_name-running_example = get_state_name-running constants 1 refl

abbrev sleeper : Task
sleeper = record {
  pid = 7;
  parent_pid = 1;
  state = 1;
  policy = 3;
  prio = 120;
  nice = 0;
  comm = codes "sleeper";
}

shown :
    proc_show constants (sleeper ∷ [])
    ≡ record {
      pid = 7;
      ppid = 1;
      state = codes "TASK_INTERRUPTIBLE";
      policy = codes "SCHED_BATCH";
      prio = 120;
      nice = 0;
      name = codes "sleeper";
    }
      ∷ []
unfolding proc_show get_state_name get_policy_name
shown = refl
