-- ===== src/Structures/Loading.antt =====
-- Loading the demo, and what it shows in /proc.
use kernel_programming.Base.{
  ℕ, ◌+◌, Bool, List, ◌∷◌, length, if◌then◌else◌, Result, ok, err, enomem, codes,
}
use kernel_programming.Structures.Containers.{leaf, ListHead, Kfifo, Hashtable, RbTree}
use kernel_programming.Structures.Records.{
  TaskItem, Message, UserEntry, queue_size, add_task, send_message, add_user,
}
use kernel_programming.Structures.Intervals.Model.{Interval, IntervalTree, insert_interval}
use kernel_programming.Structures.Intervals.Insert.{intervals}
use kernel_programming.Structures.Intervals.Sorted.{Ascending}
pub mod Leak

-- What the kernel answers during `data_structures_init`: one `kmalloc` for each of the objects, and
-- `proc_create`.
pub record Calls : Type 0 where
  pub first_task : Bool
  pub second_task : Bool
  pub first_user : Bool
  pub second_user : Bool
  pub first_interval : Bool
  pub second_interval : Bool
  pub proc_create : Bool

-- One block where the allocation succeeds.
abbrev pub blocks : (kmalloc : Bool) → ℕ
blocks kmalloc = if kmalloc then 1 else 0

-- An entry in front of others, where there was memory for it.
abbrev pub kept : {A : Type 0} (kmalloc : Bool) → A → List A → List A
kept kmalloc x xs = if kmalloc then x ∷ xs else xs

-- The tasks and users of the initialisation.
abbrev pub high : TaskItem
high = record { priority = 10; name = codes "high_priority" }

abbrev pub normal : TaskItem
normal = record { priority = 5; name = codes "normal_task" }

abbrev pub alice : UserEntry
alice = record { user_id = 1001; name = codes "alice" }

abbrev pub bob : UserEntry
bob = record { user_id = 1002; name = codes "bob" }

module _ (ls : ListHead TaskItem) (q : Kfifo Message queue_size) (h : Hashtable UserEntry)
    (rb : RbTree Interval) where
  -- The module's static data.
  pub record Demo : Type 0 where
    pub tasks : ls.Head
    pub messages : q.Fifo
    pub users : h.Table
    pub tree : IntervalTree
    -- The blocks that kmalloc has given and that are not freed.
    pub live : ℕ

  unfoldable pub data_structures_init : Calls → Demo × Result ℕ
  data_structures_init k =
      let tasks = (add_task ls k.first_task 10 (codes "high_priority") ls.empty).0 in
      let tasks = (add_task ls k.second_task 5 (codes "normal_task") tasks).0 in
      let messages = (send_message q 1 (codes "Hello") q.empty).0 in
      let messages = (send_message q 2 (codes "World") messages).0 in
      let users = (add_user h k.first_user 1001 (codes "alice") h.empty).0 in
      let users = (add_user h k.second_user 1002 (codes "bob") users).0 in
      let tree =
        (insert_interval rb k.first_interval 100 200 (record { root = leaf; allocated = 0 })).0 in
      let tree = (insert_interval rb k.second_interval 300 400 tree).0 in
      let demo : Demo = record {
        tasks = tasks;
        messages = messages;
        users = users;
        tree = tree;
        live =
            blocks k.first_task
            + (blocks k.second_task
                + (blocks k.first_user + (blocks k.second_user + tree.allocated)));
      } in
      (demo, if k.proc_create then ok 0 else err enomem)

  -- What `data_structures_show` prints: the entries in the order of its loops.
  pub record Shown : Type 0 where
    pub tasks : List TaskItem
    pub used : ℕ
    pub size : ℕ
    pub users : List UserEntry
    pub intervals : List Interval

  pub data_structures_show : Demo → Shown
  data_structures_show d = record {
    tasks = ls.items d.tasks;
    used = length (q.items d.messages);
    size = queue_size;
    users = h.items d.users;
    intervals = rb.walk d.tree.root;
  }

  -- What is shown of the tree is strictly ascending by start, where the tree is.
  pub show-Ascending :
      (d : Demo) → Ascending (intervals d.tree) → Ascending (data_structures_show d).intervals
  unfolding data_structures_show
  show-Ascending d asc = rw (rb.walk-in_order d.tree.root) asc
