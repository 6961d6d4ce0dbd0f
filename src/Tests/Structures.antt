-- ===== src/Tests/Structures.antt =====
-- The data structures over plain lists and an unbalanced tree, which keep what the kernel documents.
use mathlib.Core.List.{head?, tail, Perm}
use mathlib.Core.List.Perm
use kernel_programming.Base.{
  ℕ, ◌≤◌, ◌<◌, ◌≡◌, ◌⊎◌, refl, ap, ◌∙◌, true, false, List, [], ◌∷◌, ◌++◌, length, arith, err,
  eexist, ltb, if◌then◌else◌, codes,
}
use kernel_programming.Structures.Containers.{
  ListHead, Kfifo, Hashtable, Tree, leaf, node, in_order, RbTree,
}
use kernel_programming.Structures.Records.{TaskItem, Message, UserEntry, queue_size}
use kernel_programming.Structures.Intervals.Model.{
  Interval, IntervalTree, insert_interval, free_intervals, link_node,
}
use kernel_programming.Structures.Intervals.Insert.{
  interval, intervals, Refused, Inserted, insert_interval_lem,
}
use kernel_programming.Structures.Intervals.Memory.{free_intervals_lem}
use kernel_programming.Structures.Sending.{Call, Attempt}
use kernel_programming.Structures.Loading.{Calls}

abbrev list_head : ListHead TaskItem
list_head = record {
  Head = List TaskItem;
  empty = [];
  items = λ l. l;
  add_tail = λ x l. l ++ x ∷ [];
  items-empty = refl;
  items-add_tail = λ x l. refl;
}

abbrev put : Message → List Message → List Message × ℕ
put x f = if ltb (length f) queue_size then (f ++ x ∷ [], 1) else (f, 0)

put_room :
    (x : Message) (f : List Message)
    → length f < queue_size
    → ((put x f).0 ≡ f ++ x ∷ []) × ((put x f).1 ≡ 1)
put_room x f h = ground arith

put_full :
    (x : Message) (f : List Message) → queue_size ≤ length f → ((put x f).0 ≡ f) × ((put x f).1 ≡ 0)
put_full x f h = ground arith

abbrev kfifo : Kfifo Message queue_size
kfifo = record {
  Fifo = List Message;
  empty = [];
  items = λ l. l;
  put = put;
  items-empty = refl;
  put-room = put_room;
  put-full = put_full;
}

abbrev hashtable : Hashtable UserEntry
hashtable = record {
  Table = List UserEntry;
  empty = [];
  items = λ l. l;
  add = λ x key t. x ∷ t;
  items-empty = refl;
  items-add = λ x key t. Perm.refl (x ∷ t);
}

abbrev erase_leftmost : Tree Interval → Tree Interval
erase_leftmost leaf = leaf
erase_leftmost (node leaf x r) = r
erase_leftmost (node (node a y b) x r) = node (erase_leftmost (node a y b)) x r

-- A node's order is not empty, so its tail commutes with what follows.
tail-append :
    (xs ys zs : List Interval) (y : Interval)
    → tail (xs ++ y ∷ ys) ++ zs ≡ tail ((xs ++ y ∷ ys) ++ zs)
tail-append [] ys zs y = refl
tail-append (x ∷ xs) ys zs y = refl

in_order-erase_leftmost : (t : Tree Interval) → in_order (erase_leftmost t) ≡ tail (in_order t)
in_order-erase_leftmost leaf = refl
in_order-erase_leftmost (node leaf x r) = refl
in_order-erase_leftmost (node (node a y b) x r) =
    ap (λ l. l ++ x ∷ in_order r) (in_order-erase_leftmost (node a y b))
    ∙ tail-append (in_order a) (in_order b) (x ∷ in_order r) y

abbrev rb_tree : RbTree Interval
rb_tree = record {
  insert_color = λ t. t;
  erase_first = erase_leftmost;
  first = λ t. head? (in_order t);
  walk = in_order;
  in_order-insert_color = λ t. refl;
  in_order-erase_first = in_order-erase_leftmost;
  first-head? = λ t. refl;
  walk-in_order = λ t. refl;
}

abbrev two_intervals : IntervalTree
two_intervals = record {
  root = node leaf (interval 100 200) (node leaf (interval 300 400) leaf);
  allocated = 2;
}

inserted_between :
    intervals (insert_interval rb_tree true 250 260 two_intervals).0
    ≡ interval 100 200 ∷ interval 250 260 ∷ interval 300 400 ∷ []
unfolding insert_interval link_node
inserted_between = refl

same_start : (insert_interval rb_tree true 300 301 two_intervals).1 ≡ err eexist
unfolding insert_interval link_node
same_start = refl

insert_interval_lem_example :
    Refused 250 two_intervals (insert_interval rb_tree true 250 260 two_intervals)
    ⊎ Inserted 250 260 two_intervals (insert_interval rb_tree true 250 260 two_intervals)
insert_interval_lem_example = insert_interval_lem rb_tree 250 260 two_intervals (omega arith)

free_intervals_lem_example :
    (intervals (free_intervals 3 rb_tree two_intervals) ≡ [])
    × ((free_intervals 3 rb_tree two_intervals).allocated ≡ 0)
free_intervals_lem_example = free_intervals_lem rb_tree 3 two_intervals refl (omega arith)

abbrev greetings : List Call
greetings = (1, codes "Hello") ∷ (2, codes "World") ∷ []

abbrev attempts : List Attempt
attempts = (true, (10, codes "high_priority")) ∷ (false, (5, codes "normal_task")) ∷ []

abbrev no_proc : Calls
no_proc = record {
  first_task = true;
  second_task = true;
  first_user = true;
  second_user = false;
  first_interval = true;
  second_interval = true;
  proc_create = false;
}
