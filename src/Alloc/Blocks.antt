-- ===== src/Alloc/Blocks.antt =====
-- The heap of the memory allocator demo: a block at its end is freed, and the blocks before and
-- behind it stay.
use kernel_programming.Base.{
  ℕ, ◌≡◌, refl, inl, inr, true, false, Option, none, some, List, [], ◌∷◌, ◌++◌, ==_self, Bool-cases,
  arith,
}
use kernel_programming.Alloc.{Area, area_code, Block, same, holds, remove}

abbrev pub block : Area → ℕ → Block
block area p = record { area = area; address = p }

-- The blocks behind pointers, of which some are NULL.
abbrev pub blocks : Area → List (Option ℕ) → List Block
blocks area [] = []
blocks area (none ∷ ps) = blocks area ps
blocks area (some p ∷ ps) = block area p ∷ blocks area ps

-- Pointers to new blocks: none is to a block of `live`, nor to one before it.
abbrev pub AllFresh : Area → List (Option ℕ) → List Block → Type 0
AllFresh area [] live = Unit
AllFresh area (none ∷ ps) live = AllFresh area ps live
AllFresh area (some p ∷ ps) live =
    (holds area p live ≡ false) × AllFresh area ps (live ++ block area p ∷ [])

same_self : (area : Area) (p : ℕ) → same area p (block area p) ≡ true
same_self area p = rw (==_self (area_code area), ==_self p)

pub remove-append :
    (area : Area) (p : ℕ) (bs cs : List Block)
    → holds area p bs ≡ false
    → remove area p (bs ++ block area p ∷ cs) ≡ some (bs ++ cs)
remove-append area p [] cs h = rw (same_self area p)
remove-append area p (b ∷ bs) cs h = elim (Bool-cases (same area p b)) [
  | inl e ↦ absurd (ground arith)
  | inr e ↦
      let rest : remove area p (bs ++ block area p ∷ cs) ≡ some (bs ++ cs) =
        remove-append area p bs cs (ground arith) in
      rw (e, rest)
]

-- What no list of blocks gains: a pointer to none of `live'` is to none of `live`.
abbrev pub Within : (live live' : List Block) → Type 0
Within live live' = (area : Area) (p : ℕ) → holds area p live' ≡ false → holds area p live ≡ false

pub Within-append : (bs cs : List Block) → Within bs (bs ++ cs)
Within-append [] cs area p h = refl
Within-append (b ∷ bs) cs area p h = ground (arith, Within-append bs cs area p)

Within-both : (live live' cs : List Block) → Within live live' → Within (live ++ cs) (live' ++ cs)
Within-both live live' cs w area p h =
    both live (left live' h) (w area p (left live' h)) (right live' h)
  where
    left : (l : List Block) → holds area p (l ++ cs) ≡ false → holds area p l ≡ false
    left l g = Within-append l cs area p g

    right : (l : List Block) → holds area p (l ++ cs) ≡ false → holds area p cs ≡ false
    right [] g = g
    right (b ∷ l) g = ground (arith, right l)

    both :
        (l : List Block)
        → holds area p live' ≡ false
        → holds area p l ≡ false
        → holds area p cs ≡ false
        → holds area p (l ++ cs) ≡ false
    both [] g' g k = k
    both (b ∷ l) g' g k = ground (arith, both l)

pub AllFresh-Within :
    (area : Area) (ps : List (Option ℕ)) (live live' : List Block)
    → Within live live'
    → AllFresh area ps live'
    → AllFresh area ps live
AllFresh-Within area [] live live' w f = tt
AllFresh-Within area (none ∷ ps) live live' w f = AllFresh-Within area ps live live' w f
AllFresh-Within area (some p ∷ ps) live live' w (new, f) = (
  w area p new,
  AllFresh-Within area ps (live ++ block area p ∷ []) (live' ++ block area p ∷ [])
      (Within-both live live' (block area p ∷ []) w) f,
)
