-- ===== src/Structures/Intervals/Insert.antt =====
-- What `insert_interval` does to the ordered view of the tree, over any rebalancing.
use mathlib.Core.List.{Perm}
use kernel_programming.Base.{
  ℕ, ◌+◌, ◌≡◌, ◌⊎◌, inl, inr, refl, sym, ◌∙◌, true, false, Option, none, some, List, ◌∷◌, arith,
  Result, ok, err, eexist,
}
use kernel_programming.Structures.Containers.{Tree, in_order, RbTree}
use kernel_programming.Structures.Intervals.Model.{
  Interval, IntervalTree, link_node, insert_interval,
}
use kernel_programming.Structures.Intervals.Sorted.{
  Ascending, has_start, insert_sorted, OnSome, is_none, link_node-insert_sorted,
  insert_sorted-Ascending, insert_sorted-perm, is_none-insert_sorted,
}

abbrev pub interval : ℕ → ℕ → Interval
interval s e = record { start = s; end = e }

-- The intervals of the tree in the order in which they are shown.
abbrev pub intervals : IntervalTree → List Interval
intervals t = in_order t.root

-- A refused insertion: the start is there, and nothing changes.
abbrev pub Refused : (start : ℕ) → IntervalTree → IntervalTree × Result ℕ → Type 0
Refused start t r = (has_start start (intervals t) ≡ true) × (r ≡ (t, err eexist))

abbrev pub Inserted : (start end : ℕ) → IntervalTree → IntervalTree × Result ℕ → Type 0
Inserted start end t r =
    (has_start start (intervals t) ≡ false)
    × (r.1 ≡ ok 0)
    × Ascending (intervals r.0)
    × Perm (intervals r.0) (interval start end ∷ intervals t)
    × (r.0.allocated ≡ t.allocated + 1)

insert-linked :
    (rb : RbTree Interval) (start end : ℕ) (t : IntervalTree)
    → (o : Option (Tree Interval)) → link_node (interval start end) t.root ≡ o
    → (l : Option (List Interval)) → (elim o [ none ↦ none | some t' ↦ some (in_order t') ]) ≡ l
    → is_none l ≡ has_start start (intervals t)
    → OnSome Ascending l
    → OnSome (λ xs. Perm xs (interval start end ∷ intervals t)) l
    → Refused start t (insert_interval rb true start end t)
      ⊎ Inserted start end t (insert_interval rb true start end t)
unfolding insert_interval
insert-linked rb start end t none e none el found asc perm = inl (sym found, ground arith)
insert-linked rb start end t none e (some l) el found asc perm = absurd (cc)
insert-linked rb start end t (some t') e none el found asc perm = absurd (cc)
insert-linked rb start end t (some t') e (some l) el found asc perm =
    let same : in_order t' ≡ l = cc in
    let view : in_order (rb.insert_color t') ≡ l = rb.in_order-insert_color t' ∙ same in
    rw e (inr (sym found, refl, rw view asc, rw view perm, refl))

-- With memory for the node, over any rebalancing that keeps the order: if an interval with the same
-- start is there, the result is -EEXIST, and the tree and the allocations are unchanged. Otherwise
-- the result is 0, the intervals in order are still strictly ascending by start and are those from
-- before with the new one, and one node more is allocated.
pub insert_interval_lem :
    (rb : RbTree Interval) (start end : ℕ) (t : IntervalTree)
    → Ascending (intervals t)
    → Refused start t (insert_interval rb true start end t)
      ⊎ Inserted start end t (insert_interval rb true start end t)
insert_interval_lem rb start end t asc =
    let new : Interval = interval start end in
    insert-linked rb start end t (link_node new t.root) refl (insert_sorted new (intervals t))
      (link_node-insert_sorted new t.root asc) (is_none-insert_sorted new (intervals t) asc)
      (insert_sorted-Ascending new (intervals t) asc) (insert_sorted-perm new (intervals t))
