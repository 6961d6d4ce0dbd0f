-- ===== src/Labs.antt =====
-- labs/lab1/process_info.c, and the same functions in labs/lab1/task_monitor.c: the names of a task's
-- state and policy, and the rows of /proc/process_info. The numbers behind the kernel's constants are
-- a parameter.
use Prim.Native.Nat.{bit_and}
use kernel_programming.Base.{
  ℕ, List, [], ◌∷◌, map, codes, ◌==◌, if◌then◌else◌, Bool, not, Result, ok, err, enomem,
}
use kernel_programming.Kernel.Resources.{Boot, Event, acquire, release, ◌▷◌, stop, proc_entry}
pub mod Names

pub record Constants : Type 0 where
  pub task_running : ℕ
  pub task_interruptible : ℕ
  pub task_uninterruptible : ℕ
  pub task_stopped : ℕ
  pub task_traced : ℕ
  pub exit_zombie : ℕ
  pub exit_dead : ℕ
  pub sched_normal : ℕ
  pub sched_fifo : ℕ
  pub sched_rr : ℕ
  pub sched_batch : ℕ
  pub sched_idle : ℕ
  pub sched_deadline : ℕ

unfoldable pub get_policy_name : Constants → (policy : ℕ) → List ℕ
get_policy_name k policy =
    if policy == k.sched_normal
    then codes "SCHED_NORMAL/OTHER"
    else if policy == k.sched_fifo
    then codes "SCHED_FIFO"
    else if policy == k.sched_rr
    then codes "SCHED_RR"
    else if policy == k.sched_batch
    then codes "SCHED_BATCH"
    else if policy == k.sched_idle
    then codes "SCHED_IDLE"
    else if policy == k.sched_deadline
    then codes "SCHED_DEADLINE"
    else codes "unknown"

-- state & flag
abbrev pub has : (state flag : ℕ) → Bool
has state flag = not (bit_and state flag == 0)

unfoldable pub get_state_name : Constants → (state : ℕ) → List ℕ
get_state_name k state =
    if has state k.task_running
    then codes "TASK_RUNNING"
    else if has state k.task_interruptible
    then codes "TASK_INTERRUPTIBLE"
    else if has state k.task_uninterruptible
    then codes "TASK_UNINTERRUPTIBLE"
    else if has state k.task_stopped
    then codes "TASK_STOPPED"
    else if has state k.task_traced
    then codes "TASK_TRACED"
    else if has state k.exit_zombie
    then codes "EXIT_ZOMBIE"
    else if has state k.exit_dead
    then codes "EXIT_DEAD"
    else codes "unknown"

pub record Task : Type 0 where
  pub pid : ℕ
  pub parent_pid : ℕ
  pub state : ℕ
  pub policy : ℕ
  pub prio : ℕ
  pub nice : ℕ
  pub comm : List ℕ

pub record Row : Type 0 where
  pub pid : ℕ
  pub ppid : ℕ
  pub state : List ℕ
  pub policy : List ℕ
  pub prio : ℕ
  pub nice : ℕ
  pub name : List ℕ

abbrev pub row : Constants → Task → Row
row k task = record {
  pid = task.pid;
  ppid = task.parent_pid;
  state = get_state_name k task.state;
  policy = get_policy_name k task.policy;
  prio = task.prio;
  nice = task.nice;
  name = task.comm;
}

-- for_each_process goes over the tasks in their order.
unfoldable pub proc_show : Constants → (tasks : List Task) → List Row
proc_show k [] = []
proc_show k (task ∷ tasks) = row k task ∷ proc_show k tasks

unfoldable pub process_info_init : (proc_create : Bool) → Boot (List Task)
process_info_init proc_create =
    if not proc_create then stop [] (err enomem) else acquire proc_entry ▷ stop [] (ok 0)

unfoldable pub process_info_exit : List Task → List Event
process_info_exit tasks = release proc_entry ∷ []
