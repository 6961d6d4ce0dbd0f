-- ===== src/Structures/Records.antt =====
-- `add_task`, `send_message` and `add_user`. A C string is the list of its characters, without the
-- NUL; an `int` is the bit pattern of 32 bits.
use kernel_programming.Base.{
  ℕ, zero, suc, Bool, List, [], take, if◌then◌else◌, Result, ok, err, enomem, enospc, ◌==◌,
}
use kernel_programming.Structures.Containers.{ListHead, Kfifo, Hashtable}

-- strncpy(to, from, size - 1) and the NUL behind it: the string that the field then holds.
abbrev pub copy_name : (size : ℕ) → List ℕ → List ℕ
copy_name zero from = []
copy_name (suc room) from = take room from

-- `struct task_item`, `struct message` and `struct user_entry`
pub record TaskItem : Type 0 where
  pub priority : ℕ
  pub name : List ℕ

pub record Message : Type 0 where
  pub id : ℕ
  pub text : List ℕ

pub record UserEntry : Type 0 where
  pub user_id : ℕ
  pub name : List ℕ

abbrev pub queue_size : ℕ
queue_size = 32

module _ (ls : ListHead TaskItem) where
  unfoldable pub add_task :
      (kmalloc : Bool) (priority : ℕ) (name : List ℕ) → ls.Head → ls.Head × Result ℕ
  add_task kmalloc priority name tasks =
      if kmalloc
      then (ls.add_tail (record { priority = priority; name = copy_name 32 name }) tasks, ok 0)
      else (tasks, err enomem)

module _ (q : Kfifo Message queue_size) where
  unfoldable pub send_message : (id : ℕ) (text : List ℕ) → q.Fifo → q.Fifo × Result ℕ
  send_message id text fifo =
      let (fifo, ret) = q.put (record { id = id; text = copy_name 64 text }) fifo in
      if ret == 1 then (fifo, ok 0) else (fifo, err enospc)

module _ (h : Hashtable UserEntry) where
  unfoldable pub add_user :
      (kmalloc : Bool) (user_id : ℕ) (name : List ℕ) → h.Table → h.Table × Result ℕ
  add_user kmalloc user_id name users =
      if kmalloc
      then (h.add (record { user_id = user_id; name = copy_name 32 name }) user_id users, ok 0)
      else (users, err enomem)
