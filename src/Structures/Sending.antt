-- ===== src/Structures/Sending.antt =====
-- Any sequence of messages, tasks or users, over any containers that do what the kernel documents.
use mathlib.Core.List.{Perm, perm_middle, map}
use mathlib.Core.List.Perm
use kernel_programming.Base.{
  ℕ, zero, suc, ◌+◌, ◌≤◌, ◌<◌, ◌≡◌, refl, sym, ap, ◌∙◌, Bool, true, false, List, [], ◌∷◌, ◌++◌,
  take, length, length-append, arith, Result, ok, err, enospc, append_assoc, append-nil,
}
use kernel_programming.Structures.Containers.{ListHead, Kfifo, Hashtable}
use kernel_programming.Structures.Records.{
  TaskItem, Message, UserEntry, queue_size, add_task, send_message, add_user,
}

-- What the caller passes: an id or a priority, and a text.
abbrev pub Call : Type 0
Call = ℕ × List ℕ

abbrev pub as_message : Call → Message
as_message c = record { id = c.0; text = take 63 c.1 }

abbrev pub sent : List Call → List Message
sent [] = []
sent (c ∷ cs) = as_message c ∷ sent cs

-- One result for each call: 0 for as many as there is room for, then -ENOSPC.
abbrev pub outcomes : ℕ → List Call → List (Result ℕ)
outcomes room [] = []
outcomes zero (c ∷ cs) = err enospc ∷ outcomes zero cs
outcomes (suc room) (c ∷ cs) = ok 0 ∷ outcomes room cs

abbrev pub as_task : Call → TaskItem
as_task c = record { priority = c.0; name = take 31 c.1 }

abbrev pub as_user : Call → UserEntry
as_user c = record { user_id = c.0; name = take 31 c.1 }

-- The results of the calls, and the queue behind them.
module _ (q : Kfifo Message queue_size) where
  unfoldable pub send_all : List Call → q.Fifo → q.Fifo × List (Result ℕ)
  send_all [] fifo = (fifo, [])
  send_all (c ∷ cs) fifo =
      let (fifo, r) = send_message q c.0 c.1 fifo in
      let (fifo, rs) = send_all cs fifo in (fifo, r ∷ rs)

  send-full :
      (c : Call) (fifo : q.Fifo)
      → queue_size ≤ length (q.items fifo)
      → send_message q c.0 c.1 fifo ≡ ((q.put (as_message c) fifo).0, err enospc)
  unfolding send_message
  send-full c fifo h = rw ((q.put-full (as_message c) fifo h).1)

  send-room :
      (c : Call) (fifo : q.Fifo)
      → length (q.items fifo) < queue_size
      → send_message q c.0 c.1 fifo ≡ ((q.put (as_message c) fifo).0, ok 0)
  unfolding send_message
  send-room c fifo h = rw ((q.put-room (as_message c) fifo h).1)

  send_all_from :
      (cs : List Call) (fifo : q.Fifo) (room : ℕ)
      → length (q.items fifo) + room ≡ queue_size
      → (q.items (send_all cs fifo).0 ≡ q.items fifo ++ take room (sent cs))
        × ((send_all cs fifo).1 ≡ outcomes room cs)
  unfolding send_all
  send_all_from [] fifo zero h = (sym (append-nil (q.items fifo)), refl)
  send_all_from [] fifo (suc room) h = (sym (append-nil (q.items fifo)), refl)
  send_all_from (c ∷ cs) fifo zero h =
      let same = (q.put-full (as_message c) fifo (omega arith)).0 in
      let fifo' = (q.put (as_message c) fifo).0 in
      let (items, results) = send_all_from cs fifo' zero (omega (arith, ap length same)) in
      rw (send-full c fifo (omega arith))
        (items ∙ ap (λ l. l ++ []) same, ap (◌∷◌ (err enospc)) results)
  send_all_from (c ∷ cs) fifo (suc room) h =
      let more = (q.put-room (as_message c) fifo (omega arith)).0 in
      let fifo' = (q.put (as_message c) fifo).0 in
      let (items, results) =
        send_all_from cs fifo' room
          (omega (arith, ap length more, length-append (q.items fifo) (as_message c ∷ []))) in
      rw (send-room c fifo (omega arith)) (
        items
            ∙ ap (λ l. l ++ take room (sent cs)) more
            ∙ append_assoc (q.items fifo) (as_message c ∷ []) (take room (sent cs)),
        ap (◌∷◌ (ok 0)) results,
      )

  -- Any messages, sent one after the other to the empty queue: the queue holds the first 32 of
  -- them, in order and each cut to 63 characters; the calls for these return 0 and all later ones
  -- -ENOSPC.
  pub send_all_lem :
      (cs : List Call)
      → (q.items (send_all cs q.empty).0 ≡ take queue_size (sent cs))
        × ((send_all cs q.empty).1 ≡ outcomes queue_size cs)
  send_all_lem cs =
      let (items, results) =
        send_all_from cs q.empty queue_size (omega (arith, ap length q.items-empty)) in
      (items ∙ ap (λ l. l ++ take queue_size (sent cs)) q.items-empty, results)

-- Calls of `add_task` or `add_user`, each with the answer of its `kmalloc`.
abbrev pub Attempt : Type 0
Attempt = Bool × Call

-- The calls that got memory, in order.
abbrev pub served : List Attempt → List Call
served [] = []
served ((true, c) ∷ as') = c ∷ served as'
served ((false, c) ∷ as') = served as'

module _ (ls : ListHead TaskItem) where
  unfoldable pub add_tasks : List Attempt → ls.Head → ls.Head
  add_tasks [] tasks = tasks
  add_tasks ((got, c) ∷ as') tasks = add_tasks as' (add_task ls got c.0 c.1 tasks).0

  -- The task list holds the tasks whose memory could be allocated, in the order of the calls and
  -- behind those that it held before, each name cut to 31 characters.
  pub add_tasks_lem :
      (as' : List Attempt) (tasks : ls.Head)
      → ls.items (add_tasks as' tasks) ≡ ls.items tasks ++ map as_task (served as')
  unfolding add_tasks add_task
  add_tasks_lem [] tasks = sym (append-nil (ls.items tasks))
  add_tasks_lem ((false, c) ∷ as') tasks = add_tasks_lem as' tasks
  add_tasks_lem ((true, c) ∷ as') tasks =
      add_tasks_lem as' (ls.add_tail (as_task c) tasks)
      ∙ ap (λ l. l ++ map as_task (served as')) (ls.items-add_tail (as_task c) tasks)
      ∙ append_assoc (ls.items tasks) (as_task c ∷ []) (map as_task (served as'))

module _ (h : Hashtable UserEntry) where
  unfoldable pub add_users : List Attempt → h.Table → h.Table
  add_users [] users = users
  add_users ((got, c) ∷ as') users = add_users as' (add_user h got c.0 c.1 users).0

  -- The user table holds, in some order, the users that it held before and those whose memory could
  -- be allocated, each name cut to 31 characters. A user id that comes twice is held twice.
  pub add_users_perm :
      (as' : List Attempt) (users : h.Table)
      → Perm (h.items (add_users as' users)) (map as_user (served as') ++ h.items users)
  unfolding add_users add_user
  add_users_perm [] users = Perm.refl (h.items users)
  add_users_perm ((false, c) ∷ as') users = add_users_perm as' users
  add_users_perm ((true, c) ∷ as') users =
      Perm.trans (add_users_perm as' (h.add (as_user c) c.0 users)) (
        Perm.trans (Perm.append_left (map as_user (served as')) (h.items-add (as_user c) c.0 users))
          (perm_middle (map as_user (served as')) (h.items users)))
