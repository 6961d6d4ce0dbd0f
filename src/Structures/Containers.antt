-- ===== src/Structures/Containers.antt =====
-- The kernel's containers that data_structures_demo.c calls (linux/list.h, linux/kfifo.h,
-- linux/hashtable.h, linux/rbtree.h). They are not part of the repository: each is a record of the
-- operations with what their documentation says of them.
use mathlib.Core.List.{Perm, head?, tail}
use kernel_programming.Base.{ℕ, ◌≤◌, ◌<◌, ◌≡◌, Option, List, [], ◌∷◌, ◌++◌, length}

-- A doubly linked list: `list_add_tail` adds at the end.
pub record ListHead (A : Type 0) : Type 1 where
  pub Head : Type 0
  pub empty : Head
  pub items : Head → List A
  pub add_tail : A → Head → Head
  pub items-empty : items empty ≡ []
  pub items-add_tail : (x : A) (l : Head) → items (add_tail x l) ≡ items l ++ x ∷ []

-- A fifo of `size` elements: `kfifo_in` of one element returns the number it took, 0 or 1.
pub record Kfifo (A : Type 0) (size : ℕ) : Type 1 where
  pub Fifo : Type 0
  pub empty : Fifo
  pub items : Fifo → List A
  pub put : A → Fifo → Fifo × ℕ
  pub items-empty : items empty ≡ []
  pub put-room :
      (x : A) (f : Fifo)
      → length (items f) < size
      → (items (put x f).0 ≡ items f ++ x ∷ []) × ((put x f).1 ≡ 1)
  pub put-full :
      (x : A) (f : Fifo)
      → size ≤ length (items f)
      → (items (put x f).0 ≡ items f) × ((put x f).1 ≡ 0)

-- A chained hash table: `hash_add` adds an element, whether or not its key is there already, and
-- `hash_for_each` visits all of them in some order.
pub record Hashtable (A : Type 0) : Type 1 where
  pub Table : Type 0
  pub empty : Table
  pub items : Table → List A
  pub add : A → (key : ℕ) → Table → Table
  pub items-empty : items empty ≡ []
  pub items-add : (x : A) (key : ℕ) (t : Table) → Perm (items (add x key t)) (x ∷ items t)

-- The nodes of a red-black tree as the module lays them out: two links and the interval.
pub data Tree (A : Type 0) : Type 0 where
  leaf : Tree A
  node : Tree A → A → Tree A → Tree A

abbrev pub in_order : {A : Type 0} → Tree A → List A
in_order leaf = []
in_order (node l x r) = in_order l ++ x ∷ in_order r

-- `rb_insert_color` and `rb_erase` rebalance, and keep the order of the other nodes; `rb_first` is
-- the leftmost node, and following `rb_next` from it visits the nodes in order.
pub record RbTree (A : Type 0) : Type 0 where
  pub insert_color : Tree A → Tree A
  pub erase_first : Tree A → Tree A
  pub first : Tree A → Option A
  pub walk : Tree A → List A
  pub in_order-insert_color : (t : Tree A) → in_order (insert_color t) ≡ in_order t
  pub in_order-erase_first : (t : Tree A) → in_order (erase_first t) ≡ tail (in_order t)
  pub first-head? : (t : Tree A) → first t ≡ head? (in_order t)
  pub walk-in_order : (t : Tree A) → walk t ≡ in_order t
