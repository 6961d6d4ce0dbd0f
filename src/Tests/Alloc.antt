-- ===== src/Tests/Alloc.antt =====
-- The memory allocator demo with allocators that hand out consecutive addresses, and fail at some
-- of the calls.
use kernel_programming.Base.{
  ℕ, ◌+◌, ◌*◌, ◌≤◌, ◌≡◌, refl, false, Option, none, some, List, [], ◌∷◌, ltb, if◌then◌else◌, arith,
}
use kernel_programming.Alloc.{
  Area, Allocator, Heap, Block, holds, AllocTestResult, TestResults, no_result, mem_demo_analysis,
}

-- An address above all that are in use.
abbrev above : List Block → ℕ
above [] = 1
above (b ∷ bs) = b.address + above bs + 1

unused : (area : Area) (p : ℕ) (bs : List Block) → above bs ≤ p → holds area p bs ≡ false
unused area p [] h = refl
unused area p (b ∷ bs) h =
    let later : holds area p bs ≡ false = unused area p bs (omega arith) in ground arith

-- A 1 MB block is not to be had; any other size is.
abbrev bounded_malloc : (size : ℕ) → List Block → Option ℕ
bounded_malloc size live = if ltb 1_000_000 size then none else some (above live)

bounded_fresh :
    (area : Area) (size : ℕ) (live : List Block) (p : ℕ)
    → bounded_malloc size live ≡ some p
    → holds area p live ≡ false
bounded_fresh area size live p e =
    let least : above live ≤ p = ground arith in unused area p live least

abbrev bounded : Allocator
bounded = record {
  malloc = λ area size call live. bounded_malloc size live;
  fresh = λ area size call live p e. bounded_fresh area size live p e;
  ktime_get_ns = λ calls. 100 * calls;
}

abbrev no_results : TestResults
no_results = record { small = no_result; medium = no_result; large = no_result }

abbrev empty_heap : Heap
empty_heap = record { calls = 0; live = [] }

abbrev timed_result : AllocTestResult
timed_result = record no_result { kmalloc_time_ns = 40; vmalloc_time_ns = 120; slab_time_ns = 8 }

timed_ratios : mem_demo_analysis timed_result ≡ some (3 ∷ 5 ∷ [])
unfolding mem_demo_analysis
timed_ratios = refl
