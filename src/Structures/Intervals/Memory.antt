-- ===== src/Structures/Intervals/Memory.antt =====
-- The nodes of the interval tree: each allocated node is in the tree, and unloading frees them all.
use mathlib.Core.List.{tail}
use kernel_programming.Base.{
  ℕ, zero, suc, ◌+◌, ◌-◌, ◌<◌, ◌≡◌, refl, ap, ◌∙◌, Bool, true, false, Option, none, some, List, [],
  ◌∷◌, length, length-append, arith,
}
use kernel_programming.Structures.Containers.{Tree, leaf, node, in_order, RbTree}
use kernel_programming.Structures.Intervals.Model.{
  Interval, IntervalTree, insert_interval, free_intervals, link_node,
}
use kernel_programming.Structures.Intervals.Insert.{intervals}

-- As many nodes are allocated as are in the tree.
abbrev pub Counted : IntervalTree → Type 0
Counted t = t.allocated ≡ length (intervals t)

abbrev size : Tree Interval → ℕ
size leaf = 0
size (node l x r) = size l + size r + 1

length-in_order : (t : Tree Interval) → length (in_order t) ≡ size t
length-in_order leaf = refl
length-in_order (node l x r) =
    omega (arith, length-append (in_order l) (x ∷ in_order r), length-in_order l, length-in_order r)

abbrev size_after : ℕ → Option (Tree Interval) → ℕ
size_after n none = n
size_after n (some t) = size t

-- A node that is linked makes the tree larger by one.
size-link_node :
    (new : Interval) (t : Tree Interval) → size_after (size t + 1) (link_node new t) ≡ size t + 1
unfolding link_node
size-link_node new leaf = refl
size-link_node new (node l curr r) = ground (arith, size-link_node new l, size-link_node new r)

Counted-after :
    (rb : RbTree Interval) (t : IntervalTree) (o : Option (Tree Interval))
    → Counted t
    → size_after (size t.root + 1) o ≡ size t.root + 1
    → Counted (elim o [
      | none ↦ record t { allocated = t.allocated + 1 - 1 }
      | some linked ↦ record { root = rb.insert_color linked; allocated = t.allocated + 1 }
    ])
Counted-after rb t none c h = omega arith
Counted-after rb t (some linked) c h = omega (
  arith,
  ap length (rb.in_order-insert_color linked),
  length-in_order linked,
  length-in_order t.root,
  h,
)

-- Insertion keeps the count, on every path, also where no memory is left or the start is there.
pub insert_interval-Counted :
    (rb : RbTree Interval) (kmalloc : Bool) (start end : ℕ) (t : IntervalTree)
    → Counted t
    → Counted (insert_interval rb kmalloc start end t).0
unfolding insert_interval
insert_interval-Counted rb false start end t c = c
insert_interval-Counted rb true start end t c =
    go (link_node new t.root) refl (size-link_node new t.root)
  where
    new : Interval
    new = record { start = start; end = end }

    go :
        (o : Option (Tree Interval))
        → link_node new t.root ≡ o
        → size_after (size t.root + 1) o ≡ size t.root + 1
        → Counted (insert_interval rb true start end t).0
    go none e h = rw e (Counted-after rb t none c h)
    go (some linked) e h = rw e (Counted-after rb t (some linked) c h)

-- Unloading empties the tree and frees every node: one round for each node and a last one that
-- finds none.
pub free_intervals_lem :
    (rb : RbTree Interval) (rounds : ℕ) (t : IntervalTree)
    → Counted t
    → length (intervals t) < rounds
    → (intervals (free_intervals rounds rb t) ≡ []) × ((free_intervals rounds rb t).allocated ≡ 0)
unfolding free_intervals
free_intervals_lem rb zero t c h = absurd (omega arith)
free_intervals_lem rb (suc rounds) t c h = go (intervals t) refl (free_intervals_lem rb rounds)
  where
    go :
        (xs : List Interval)
        → intervals t ≡ xs
        → ((t : IntervalTree)
            → Counted t
            → length (intervals t) < rounds
            → (intervals (free_intervals rounds rb t) ≡ [])
              × ((free_intervals rounds rb t).allocated ≡ 0))
        → (intervals (free_intervals (suc rounds) rb t) ≡ [])
          × ((free_intervals (suc rounds) rb t).allocated ≡ 0)
    go [] e ih = rw (rb.first-head? t.root, e, free_intervals) (e, omega (arith, ap length e))
    go (x ∷ xs) e ih =
        let next : IntervalTree = record {
          root = rb.erase_first t.root;
          allocated = t.allocated - 1;
        } in
        let left : intervals next ≡ xs = rb.in_order-erase_first t.root ∙ ap tail e in
        rw (rb.first-head? t.root, e, free_intervals)
          (ih next (omega (arith, ap length left, ap length e))
            (omega (arith, ap length left, ap length e)))
