-- ===== src/Alloc/Loops.antt =====
-- The allocation loops of the memory allocator demo, the loops that free what they allocated, and
-- the tests made of them: the blocks that are allocated before a test are those after it.
use kernel_programming.Base.{
  ℕ, zero, suc, ◌+◌, ◌*◌, ◌≤◌, ◌≡◌, refl, sym, ◌∙◌, inl, inr, ◌⊎◌, Option, none, some, List, [],
  ◌∷◌, ◌++◌, length, append_assoc, append-nil, arith, false,
}
use kernel_programming.Alloc.{
  Area, from_kmalloc, Allocator, Heap, Block, alloc_loop, free_loop, free_every_other, free,
  record_block, timed_loops, until_failure, test_memory_fragmentation, test_allocation_failures,
  elapsed, holds,
}
use kernel_programming.Alloc.Blocks.{
  block, blocks, AllFresh, AllFresh-Within, Within-append, remove-append,
}

Option-cases : (o : Option ℕ) → (o ≡ none) ⊎ ((p : ℕ) × (o ≡ some p))
Option-cases none = inl refl
Option-cases (some p) = inr (p, refl)

-- What an allocation loop leaves: new blocks behind the old ones, and the failures counted.
abbrev Grown : Allocator → Area → (size n failures : ℕ) → Heap → Type 0
Grown a area size n failures h =
    (ptrs : List (Option ℕ)) × (failures' : ℕ) × (h' : Heap) × (alloc_loop a area size n failures h
      ≡ (ptrs, failures', h'))
    × (h'.live ≡ h.live ++ blocks area ptrs)
    × AllFresh area ptrs h.live
    × (failures' + length (blocks area ptrs) ≡ failures + n)

alloc_loop-Grown :
    (a : Allocator) (area : Area) (size n failures : ℕ) (h : Heap) → Grown a area size n failures h
unfolding alloc_loop
alloc_loop-Grown a area size zero failures h =
    ([], failures, h, refl, sym (append-nil h.live), tt, omega arith)
alloc_loop-Grown a area size (suc n) failures h =
    elim (Option-cases (a.malloc area size h.calls h.live)) [
      | inl e ↦
          let (ptrs, failures', h', run, live, new, sum) =
            alloc_loop-Grown a area size n (failures + 1) (record_block area none h) in
          (none ∷ ptrs, failures', h', rw (e, run), live, new, omega (arith, sum))
      | inr (p, e) ↦
          let (ptrs, failures', h', run, live, new, sum) =
            alloc_loop-Grown a area size n failures (record_block area (some p) h) in
          (
            some p ∷ ptrs,
            failures',
            h',
            rw (e, run),
            live ∙ append_assoc h.live (block area p ∷ []) (blocks area ptrs),
            (a.fresh area size h.calls h.live p e, new),
            omega (arith, sum),
          )
    ]

-- A free of a block that stands behind fresh ones.
free_lem :
    (area : Area) (p : ℕ) (h : Heap) (bs cs : List Block)
    → holds area p bs ≡ false
    → h.live ≡ bs ++ block area p ∷ cs
    → (h' : Heap) × (free area p h ≡ some h') × (h'.live ≡ bs ++ cs)
free_lem area p h bs cs new live = (
  record { calls = h.calls + 1; live = bs ++ cs },
  rw (live, remove-append area p bs cs new),
  refl,
)

free_loop_lem :
    (area : Area) (ptrs : List (Option ℕ)) (h : Heap) (bs cs : List Block)
    → AllFresh area ptrs bs
    → h.live ≡ bs ++ (blocks area ptrs ++ cs)
    → (h' : Heap) × (free_loop area ptrs h ≡ some h') × (h'.live ≡ bs ++ cs)
unfolding free_loop
free_loop_lem area [] h bs cs new live = (h, refl, live)
free_loop_lem area (none ∷ ptrs) h bs cs new live = free_loop_lem area ptrs h bs cs new live
free_loop_lem area (some p ∷ ptrs) h bs cs (one, new) live =
    let (h1, freed, live1) = free_lem area p h bs (blocks area ptrs ++ cs) one live in
    let rest : AllFresh area ptrs bs =
      AllFresh-Within area ptrs bs (bs ++ block area p ∷ []) (Within-append bs _) new in
    let (h2, all, live2) = free_loop_lem area ptrs h1 bs cs rest live1 in
    (h2, rw (freed, all), live2)

-- Every other block freed, from a list of pointers with their blocks in between.
free_every_other_lem :
    (ptrs : List (Option ℕ)) (h : Heap) (bs : List Block)
    → AllFresh from_kmalloc ptrs bs
    → h.live ≡ bs ++ blocks from_kmalloc ptrs
    → (ptrs' : List (Option ℕ)) × (h' : Heap) × (free_every_other ptrs h ≡ some (ptrs', h'))
      × AllFresh from_kmalloc ptrs' bs
      × (h'.live ≡ bs ++ blocks from_kmalloc ptrs')
unfolding free_every_other
free_every_other_lem [] h bs new live = ([], h, refl, tt, live)
free_every_other_lem (none ∷ []) h bs new live = (none ∷ [], h, refl, tt, live)
free_every_other_lem (some p ∷ []) h bs (one, new) live =
    let (h1, freed, live1) = free_lem from_kmalloc p h bs [] one live in
    (none ∷ [], h1, rw freed, tt, live1)
free_every_other_lem (none ∷ none ∷ ptrs) h bs new live =
    let (ptrs', h', run, new', live') = free_every_other_lem ptrs h bs new live in
    (none ∷ none ∷ ptrs', h', rw run, new', live')
free_every_other_lem (none ∷ some q ∷ ptrs) h bs (two, new) live =
    let at : h.live ≡ (bs ++ block from_kmalloc q ∷ []) ++ blocks from_kmalloc ptrs =
      rw append_assoc live in
    let (ptrs', h', run, new', live') =
      free_every_other_lem ptrs h (bs ++ block from_kmalloc q ∷ []) new at in
    (
      none ∷ some q ∷ ptrs',
      h',
      rw run,
      (two, new'),
      live' ∙ append_assoc bs (block from_kmalloc q ∷ []) (blocks from_kmalloc ptrs'),
    )
free_every_other_lem (some p ∷ none ∷ ptrs) h bs (one, new) live =
    let (h1, freed, live1) = free_lem from_kmalloc p h bs (blocks from_kmalloc ptrs) one live in
    let rest : AllFresh from_kmalloc ptrs bs =
      AllFresh-Within from_kmalloc ptrs bs (bs ++ block from_kmalloc p ∷ []) (Within-append bs _)
        new in
    let (ptrs', h', run, new', live') = free_every_other_lem ptrs h1 bs rest live1 in
    (none ∷ none ∷ ptrs', h', rw (freed, run), new', live')
free_every_other_lem (some p ∷ some q ∷ ptrs) h bs (one, new) live =
    let (h1, freed, live1) =
      free_lem from_kmalloc p h bs (blocks from_kmalloc (some q ∷ ptrs)) one live in
    let (two, rest) =
      AllFresh-Within from_kmalloc (some q ∷ ptrs) bs (bs ++ block from_kmalloc p ∷ [])
        (Within-append bs _) new in
    let at : h1.live ≡ (bs ++ block from_kmalloc q ∷ []) ++ blocks from_kmalloc ptrs =
      rw append_assoc live1 in
    let (ptrs', h', run, new', live') =
      free_every_other_lem ptrs h1 (bs ++ block from_kmalloc q ∷ []) rest at in
    (
      none ∷ some q ∷ ptrs',
      h',
      rw (freed, run),
      (two, new'),
      live' ∙ append_assoc bs (block from_kmalloc q ∷ []) (blocks from_kmalloc ptrs'),
    )

until_failure_lem :
    (a : Allocator) (size n : ℕ) (h : Heap)
    → (ptrs : List (Option ℕ)) × (h' : Heap) × (until_failure a size n h ≡ (ptrs, h'))
      × (h'.live ≡ h.live ++ blocks from_kmalloc ptrs)
      × AllFresh from_kmalloc ptrs h.live
unfolding until_failure
until_failure_lem a size zero h = ([], h, refl, sym (append-nil h.live), tt)
until_failure_lem a size (suc n) h =
    elim (Option-cases (a.malloc from_kmalloc size h.calls h.live)) [
      | inl e ↦ ([], record_block from_kmalloc none h, rw (e), sym (append-nil h.live), tt)
      | inr (p, e) ↦
          let (ptrs, h', run, live, new) =
            until_failure_lem a size n (record_block from_kmalloc (some p) h) in
          (
            some p ∷ ptrs,
            h',
            rw (e, run),
            live ∙ append_assoc h.live (block from_kmalloc p ∷ []) (blocks from_kmalloc ptrs),
            (a.fresh from_kmalloc size h.calls h.live p e, new),
          )
    ]

-- A timed test: it ends with the blocks that it started with, whatever fails.
pub timed_loops_lem :
    (a : Allocator) (area : Area) (size n : ℕ) (h : Heap)
    → (time : ℕ) × (failures : ℕ) × (h' : Heap) × (timed_loops a area size n h
        ≡ some ((time, failures), h'))
      × (h'.live ≡ h.live)
      × (failures ≤ n)
unfolding timed_loops
timed_loops_lem a area size n h =
    let (ptrs, failures, h1, run, live, new, sum) = alloc_loop-Grown a area size n 0 h in
    let at : h1.live ≡ h.live ++ (blocks area ptrs ++ []) = rw append-nil live in
    let (h2, freed, live2) = free_loop_lem area ptrs h1 h.live [] new at in
    (
      elapsed (a.ktime_get_ns h.calls) (a.ktime_get_ns h2.calls),
      failures,
      h2,
      rw (run, freed),
      live2 ∙ append-nil h.live,
      omega (arith, sum),
    )

pub fragmentation_lem :
    (a : Allocator) (h : Heap)
    → (h' : Heap) × (test_memory_fragmentation a h ≡ some h') × (h'.live ≡ h.live)
unfolding test_memory_fragmentation
fragmentation_lem a h =
    let (large, f, h1, run1, live1, new1, sum1) =
      alloc_loop-Grown a from_kmalloc (64 * 1024) 10 0 h in
    let (holes, h2, run2, new2, live2) = free_every_other_lem large h1 h.live new1 live1 in
    let (small, g, h3, run3, live3, new3, sum3) = alloc_loop-Grown a from_kmalloc 1024 100 0 h2 in
    let at : h3.live ≡ h.live ++ (blocks from_kmalloc holes ++ blocks from_kmalloc small) =
      live3 ∙ rw (live2, append_assoc) in
    let (h4, run4, live4) =
      free_loop_lem from_kmalloc holes h3 h.live (blocks from_kmalloc small) new2 at in
    let rest : AllFresh from_kmalloc small h.live =
      AllFresh-Within from_kmalloc small h.live h2.live
        (rw live2 (Within-append h.live (blocks from_kmalloc holes))) new3 in
    let end : h4.live ≡ h.live ++ (blocks from_kmalloc small ++ []) = rw append-nil live4 in
    let (h5, run5, live5) = free_loop_lem from_kmalloc small h4 h.live [] rest end in
    (h5, rw (run1, run2, run3, run4, run5), live5 ∙ append-nil h.live)

pub failures_lem :
    (a : Allocator) (h : Heap)
    → (h' : Heap) × (test_allocation_failures a h ≡ some h') × (h'.live ≡ h.live)
unfolding test_allocation_failures
failures_lem a h =
    let (ptrs, h1, run, live, new) = until_failure_lem a (1024 * 1024) 1000 h in
    let at : h1.live ≡ h.live ++ (blocks from_kmalloc ptrs ++ []) = rw append-nil live in
    let (h2, freed, live2) = free_loop_lem from_kmalloc ptrs h1 h.live [] new at in
    (h2, rw (run, freed), live2 ∙ append-nil h.live)
