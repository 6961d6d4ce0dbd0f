-- ===== src/Structures/Intervals/Model.antt =====
-- `insert_interval`, and the loop of `data_structures_exit` that empties the tree.
use kernel_programming.Base.{
  ℕ, zero, suc, ◌+◌, ◌-◌, Bool, Option, none, some, ltb, if◌then◌else◌, Result, ok, err, enomem,
  eexist,
}
use kernel_programming.Structures.Containers.{Tree, leaf, node, RbTree}

-- `struct interval_node`
pub record Interval : Type 0 where
  pub start : ℕ
  pub end : ℕ

-- The tree, and the number of `interval_node`s that are allocated.
pub record IntervalTree : Type 0 where
  pub root : Tree Interval
  pub allocated : ℕ

-- The `while (*link)` loop with `rb_link_node` at the link where it ends: `none` where it meets
-- the same start.
unfoldable pub link_node : Interval → Tree Interval → Option (Tree Interval)
link_node new leaf = some (node leaf new leaf)
link_node new (node l curr r) =
    let left = link_node new l in
    let right = link_node new r in
    if ltb new.start curr.start
    then elim left [ none ↦ none | some l' ↦ some (node l' curr r) ]
    else if ltb curr.start new.start
    then elim right [ none ↦ none | some r' ↦ some (node l curr r') ]
    else none

unfoldable pub insert_interval :
    RbTree Interval → (kmalloc : Bool) → (start end : ℕ) → IntervalTree → IntervalTree × Result ℕ
insert_interval rb kmalloc start end t =
    if kmalloc
    then (elim (link_node (record { start = start; end = end }) t.root) [
      -- the new node is allocated and freed again
      | none ↦ (record t { allocated = t.allocated + 1 - 1 }, err eexist)
      | some linked ↦ (record { root = rb.insert_color linked; allocated = t.allocated + 1 }, ok 0)
    ])
    else (t, err enomem)

-- while ((node = rb_first(&interval_tree))) { rb_erase(node, …); kfree(interval); }
unfoldable pub free_intervals : (rounds : ℕ) → RbTree Interval → IntervalTree → IntervalTree
free_intervals zero rb t = t
free_intervals (suc rounds) rb t = elim (rb.first t.root) [
  | none ↦ t
  | some x ↦
      free_intervals rounds rb
        (record { root = rb.erase_first t.root; allocated = t.allocated - 1 })
]
