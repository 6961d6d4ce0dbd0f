-- ===== src/Alloc/Commands.antt =====
-- The commands and the loading of the memory allocator demo.
use kernel_programming.Base.{
  ℕ, ◌/◌, ◌≤◌, ◌≡◌, inl, inr, Bool, some, List, [], ◌∷◌, ◌==◌, Result, Access, arith, Bool-cases,
}
use kernel_programming.Kernel.Resources.{Balanced}
use kernel_programming.Alloc.{
  Allocator, Heap, AllocTestResult, TestResults, test_iterations, strncmp_equal, mem_demo_analysis,
  mem_allocator_demo_init, mem_allocator_demo_exit,
}

-- No test counts more failures than it has iterations.
pub record IsCounted (r : AllocTestResult) : Type 0 where
  pub kmalloc_few : r.kmalloc_failures ≤ test_iterations
  pub vmalloc_few : r.vmalloc_failures ≤ test_iterations
  pub slab_few : r.slab_failures ≤ test_iterations

abbrev pub AllCounted : TestResults → Type 0
AllCounted rs = IsCounted rs.small × IsCounted rs.medium × IsCounted rs.large

-- A step that gives back every block it took, with results that stay counted.
abbrev pub Restores : Access (AllocTestResult × Heap) → Heap → Type 0
Restores run h =
    (r : AllocTestResult) × (h' : Heap) × (run ≡ some (r, h')) × (h'.live ≡ h.live) × IsCounted r

-- A comparison of as many bytes as both objects have.
abbrev Defined : (n : ℕ) (s t : List ℕ) → Type 0
Defined n s t = (b : Bool) × (strncmp_equal n s t ≡ some b)

-- A call that ends, with the blocks of before and results that are counted.
abbrev pub Ends : Access (TestResults × Heap × Result ℕ) → Heap → Type 0
Ends run h =
    (rs' : TestResults) × (h' : Heap) × (r : Result ℕ) × (run ≡ some (rs', h', r))
    × (h'.live ≡ h.live)
    × AllCounted rs'

-- The ratios never divide by zero, whatever the times.
pub mem_demo_analysis_total :
    (small : AllocTestResult) → (ratios : List ℕ) × (mem_demo_analysis small ≡ some ratios)
unfolding mem_demo_analysis
mem_demo_analysis_total small = elim (Bool-cases (small.kmalloc_time_ns == 0)) [
  | inl k ↦ ([], rw k)
  | inr k ↦ elim (Bool-cases (small.vmalloc_time_ns == 0)) [
    | inl w ↦ ([], rw (k, w))
    | inr w ↦ elim (Bool-cases (small.slab_time_ns == 0)) [
      | inl s ↦ (small.vmalloc_time_ns / small.kmalloc_time_ns ∷ [], rw (k, w, s))
      | inr s ↦ (
        small.vmalloc_time_ns / small.kmalloc_time_ns
            ∷ small.kmalloc_time_ns / small.slab_time_ns
            ∷ [],
        rw (k, w, s),
      )
    ]
  ]
]

-- Whether or not the slab cache and the /proc file can be created: a failed initialisation leaves
-- nothing behind, and the exit function releases what a successful one acquired.
pub mem_allocator_demo_init-Balanced :
    (a : Allocator) (kmem_cache_create proc_create : Bool) (rs : TestResults) (h : Heap)
    → Balanced
        (mem_allocator_demo_init a kmem_cache_create proc_create rs h)
        mem_allocator_demo_exit
unfolding mem_allocator_demo_init mem_allocator_demo_exit
mem_allocator_demo_init-Balanced a kmem_cache_create proc_create rs h = ground arith
