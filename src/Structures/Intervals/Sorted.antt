-- ===== src/Structures/Intervals/Sorted.antt =====
-- The descent of `insert_interval` is insertion into the sorted list of the intervals.
use mathlib.Core.List.{Perm}
use mathlib.Core.List.Perm
use kernel_programming.Base.{
  ℕ, ◌≤◌, ◌<◌, ◌≡◌, inl, inr, refl, ◌∙◌, Bool, true, false, Option, none, some, List, [], ◌∷◌, ◌++◌,
  All, arith, ltb, ◌==◌, ◌||◌, if◌then◌else◌, Bool-cases,
}
use kernel_programming.Structures.Containers.{Tree, leaf, node, in_order}
use kernel_programming.Structures.Intervals.Model.{Interval, link_node}

-- Strictly ascending starts.
abbrev pub Ascending : List Interval → Type 0
Ascending [] = Unit
Ascending (x ∷ xs) = All (λ y. x.start < y.start) xs × Ascending xs

-- Insertion before the first larger start; `none` where the start is there.
unfoldable pub insert_sorted : Interval → List Interval → Option (List Interval)
insert_sorted new [] = some (new ∷ [])
insert_sorted new (x ∷ xs) =
    let later = insert_sorted new xs in
    if ltb new.start x.start
    then some (new ∷ x ∷ xs)
    else if ltb x.start new.start
    then elim later [ none ↦ none | some l ↦ some (x ∷ l) ]
    else none

All-split :
    (m : Interval) (xs ys : List Interval) (k : ℕ)
    → All (λ y. k < y.start) (xs ++ m ∷ ys)
    → All (λ y. k < y.start) xs × (k < m.start) × All (λ y. k < y.start) ys
All-split m [] ys k h = (tt, h.0, h.1)
All-split m (x ∷ xs) ys k h = let (a, b, c) = All-split m xs ys k h.1 in ((h.0, a), b, c)

Ascending-split :
    (m : Interval) (xs ys : List Interval)
    → Ascending (xs ++ m ∷ ys)
    → Ascending xs × All (λ x. x.start < m.start) xs × Ascending ys
Ascending-split m [] ys h = (tt, tt, h.1)
Ascending-split m (x ∷ xs) ys h =
    let (sorted, below, rest) = Ascending-split m xs ys h.1 in
    let (above, lt, _) = All-split m xs ys x.start h.0 in ((above, sorted), (lt, below), rest)

-- A start below the pivot goes into the left part,
insert-left :
    (new m : Interval) (xs ys : List Interval)
    → new.start < m.start
    → insert_sorted new (xs ++ m ∷ ys)
      ≡ (elim (insert_sorted new xs) [ none ↦ none | some l ↦ some (l ++ m ∷ ys) ])
unfolding insert_sorted
insert-left new m [] ys h = ground arith
insert-left new m (x ∷ xs) ys h = ground (arith, insert-left new m xs ys h)

-- and one above it into the right part.
insert-right :
    (new : Interval) (xs ys : List Interval)
    → All (λ x. x.start < new.start) xs
    → insert_sorted new (xs ++ ys)
      ≡ (elim (insert_sorted new ys) [ none ↦ none | some l ↦ some (xs ++ l) ])
unfolding insert_sorted
insert-right new [] ys h = ground arith
insert-right new (x ∷ xs) ys h = ground (arith, insert-right new xs ys h.1)

All-below :
    (a b : ℕ) (xs : List Interval) → a ≤ b → All (λ x. x.start < a) xs → All (λ x. x.start < b) xs
All-below a b [] h p = tt
All-below a b (x ∷ xs) h p = (omega (arith, p.0), All-below a b xs h p.1)

insert-cons :
    (new x : Interval) (xs : List Interval)
    → ltb new.start x.start ≡ false
    → insert_sorted new (x ∷ xs) ≡ (
        if ltb x.start new.start
        then elim (insert_sorted new xs) [ none ↦ none | some l ↦ some (x ∷ l) ]
        else none)
unfolding insert_sorted
insert-cons new x xs h = rw h

pub link_node-insert_sorted :
    (new : Interval) (t : Tree Interval)
    → Ascending (in_order t)
    → (elim (link_node new t) [ none ↦ none | some t' ↦ some (in_order t') ])
      ≡ insert_sorted new (in_order t)
unfolding link_node
link_node-insert_sorted new leaf asc = unfold insert_sorted in refl
link_node-insert_sorted new (node l curr r) asc =
    let (sorted, below, rest) = Ascending-split curr (in_order l) (in_order r) asc in
    let ihl = link_node-insert_sorted new l sorted in
    let ihr = link_node-insert_sorted new r rest in
    elim (Bool-cases (ltb new.start curr.start)) [
      | inl lt ↦ ground (arith, insert-left new curr (in_order l) (in_order r), ihl)
      | inr ge ↦
          let wide : All (λ x. x.start < new.start) (in_order l) =
            All-below curr.start new.start (in_order l) (ground arith) below in
          let right = insert-right new (in_order l) (curr ∷ in_order r) wide in
          ground (arith, right, ihr, insert-cons new curr (in_order r) ge)
    ]

-- Is there an interval with this start?
abbrev pub has_start : ℕ → List Interval → Bool
has_start s [] = false
has_start s (x ∷ xs) = (x.start == s) || has_start s xs

-- What holds of the list, where there is one.
abbrev pub OnSome : (List Interval → Type 0) → Option (List Interval) → Type 0
OnSome P none = Unit
OnSome P (some l) = P l

abbrev onto : Interval → Option (List Interval) → Option (List Interval)
onto x o = elim o [ none ↦ none | some l ↦ some (x ∷ l) ]

-- To show `P` of the result of an insertion: at the place of insertion, and behind a smaller head.
insert-cases :
    (P : Option (List Interval) → Type 0) (new x : Interval) (xs : List Interval)
    → (new.start < x.start → P (some (new ∷ x ∷ xs)))
    → (x.start < new.start → P (onto x (insert_sorted new xs)))
    → (x.start ≡ new.start → P none)
    → P (insert_sorted new (x ∷ xs))
unfolding insert_sorted
insert-cases P new x xs before behind same = elim (Bool-cases (ltb new.start x.start)) [
  | inl lt ↦ rw lt (before (ground arith))
  | inr ge ↦ elim (Bool-cases (ltb x.start new.start)) [
    | inl gt ↦ rw (ge, gt) (behind (ground arith))
    | inr le ↦ rw (ge, le) (same (ground arith))
  ]
]

OnSome-onto :
    (P Q : List Interval → Type 0) (x : Interval)
    → ((l : List Interval) → P l → Q (x ∷ l))
    → (o : Option (List Interval)) → OnSome P o
    → OnSome Q (onto x o)
OnSome-onto P Q x f none h = tt
OnSome-onto P Q x f (some l) h = f l h

All-larger :
    (a b : ℕ) (xs : List Interval) → a < b → All (λ y. b < y.start) xs → All (λ y. a < y.start) xs
All-larger a b [] h p = tt
All-larger a b (x ∷ xs) h p = (omega (arith, p.0), All-larger a b xs h p.1)

abbrev Above : ℕ → List Interval → Type 0
Above k = All (λ y. k < y.start)

All-insert_sorted :
    (k : ℕ) (new : Interval) (xs : List Interval)
    → k < new.start
    → All (λ y. k < y.start) xs
    → OnSome (Above k) (insert_sorted new xs)
All-insert_sorted k new [] h all = unfold insert_sorted in (h, tt)
All-insert_sorted k new (x ∷ xs) h all =
    insert-cases (OnSome (Above k)) new x xs (λ _. (h, all))
      (λ _.
        OnSome-onto (Above k) (Above k) x (λ l p. (all.0, p)) (insert_sorted new xs)
          (All-insert_sorted k new xs h all.1))
      (λ _. tt)

OnSome-both :
    (P Q : List Interval → Type 0) (o : Option (List Interval))
    → OnSome P o
    → OnSome Q o
    → OnSome (λ l. P l × Q l) o
OnSome-both P Q none p q = tt
OnSome-both P Q (some l) p q = (p, q)

pub insert_sorted-Ascending :
    (new : Interval) (xs : List Interval) → Ascending xs → OnSome Ascending (insert_sorted new xs)
insert_sorted-Ascending new [] asc = unfold insert_sorted in (tt, tt)
insert_sorted-Ascending new (x ∷ xs) asc =
    insert-cases (OnSome Ascending) new x xs
      (λ lt. ((lt, All-larger new.start x.start xs lt asc.0), asc))
      (λ gt.
        OnSome-onto (λ l. Above x.start l × Ascending l) Ascending x (λ l p. p)
          (insert_sorted new xs)
          (OnSome-both (Above x.start) Ascending (insert_sorted new xs)
            (All-insert_sorted x.start new xs gt asc.0) (insert_sorted-Ascending new xs asc.1)))
      (λ _. tt)

pub insert_sorted-perm :
    (new : Interval) (xs : List Interval) → OnSome (λ l. Perm l (new ∷ xs)) (insert_sorted new xs)
insert_sorted-perm new [] = unfold insert_sorted in Perm.refl (new ∷ [])
insert_sorted-perm new (x ∷ xs) =
    insert-cases (OnSome (λ l. Perm l (new ∷ x ∷ xs))) new x xs (λ _. Perm.refl (new ∷ x ∷ xs))
      (λ _.
        OnSome-onto (λ l. Perm l (new ∷ xs)) (λ l. Perm l (new ∷ x ∷ xs)) x
          (λ l p. Perm.trans (Perm.cons x p) (Perm.swap new x xs)) (insert_sorted new xs)
          (insert_sorted-perm new xs))
      (λ _. tt)

not_has_start :
    (s k : ℕ) (xs : List Interval) → s ≤ k → All (λ y. k < y.start) xs → has_start s xs ≡ false
not_has_start s k [] h all = refl
not_has_start s k (x ∷ xs) h all = ground (arith, not_has_start s k xs h all.1)

abbrev pub is_none : Option (List Interval) → Bool
is_none none = true
is_none (some _) = false

is_none-onto : (x : Interval) (o : Option (List Interval)) → is_none (onto x o) ≡ is_none o
is_none-onto x none = refl
is_none-onto x (some l) = refl

-- Insertion fails exactly where the start is there.
pub is_none-insert_sorted :
    (new : Interval) (xs : List Interval)
    → Ascending xs
    → is_none (insert_sorted new xs) ≡ has_start new.start xs
is_none-insert_sorted new [] asc = unfold insert_sorted in refl
is_none-insert_sorted new (x ∷ xs) asc =
    insert-cases (λ o. is_none o ≡ has_start new.start (x ∷ xs)) new x xs
      (λ lt. ground (arith, not_has_start new.start x.start xs (omega arith) asc.0))
      (λ gt. is_none-onto x _ ∙ is_none-insert_sorted new xs asc.1 ∙ ground arith)
      (λ e. ground arith)
