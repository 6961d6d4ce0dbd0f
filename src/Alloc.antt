-- ===== src/Alloc.antt =====
-- examples/class_6/01_memory_allocator_demo/mem_allocator_demo.c: loops of allocations and frees
-- with kmalloc, vmalloc and a slab cache, their timing, and the /proc commands that start them.
-- The allocators are a parameter; the heap records which blocks are allocated, and a free of a
-- block that is not is a fault. The contents of the blocks are not modelled.
use kernel_programming.Base.{
  ℕ, zero, suc, ◌+◌, ◌-◌, ◌*◌, ◌/◌, ◌%◌, ◌^◌, ◌≡◌, Bool, true, false, not, ◌&&◌, Option, none, some,
  List, [], ◌∷◌, ◌++◌, leb, ◌==◌, if◌then◌else◌, codes, Result, ok, err, enomem, einval, efault,
  Access, ◌>>=◌, write_at,
}
use kernel_programming.Kernel.User.{UserMemory}
use kernel_programming.Kernel.Resources.{
  Boot, Event, acquire, release, ◌▷◌, stop, slab_cache, proc_entry,
}
pub mod Blocks
pub mod Loops
pub mod Commands

abbrev pub test_iterations : ℕ
test_iterations = 1000

abbrev pub small_size : ℕ
small_size = 256

abbrev pub medium_size : ℕ
medium_size = 4 * 1024

abbrev pub large_size : ℕ
large_size = 128 * 1024

-- Where a block comes from: it is given back to the same allocator.
pub data Area : Type 0 where
  from_kmalloc from_vmalloc from_slab : Area

abbrev pub area_code : Area → ℕ
area_code from_kmalloc = 0
area_code from_vmalloc = 1
area_code from_slab = 2

pub record Block : Type 0 where
  pub area : Area
  pub address : ℕ

-- The blocks that are allocated, in order, and the number of calls so far.
pub record Heap : Type 0 where
  pub calls : ℕ
  pub live : List Block

abbrev pub same : (area : Area) (p : ℕ) → Block → Bool
same area p b = (area_code area == area_code b.area) && (p == b.address)

abbrev pub holds : (area : Area) (p : ℕ) → List Block → Bool
holds area p [] = false
holds area p (b ∷ bs) = if same area p b then true else holds area p bs

abbrev pub remove : (area : Area) (p : ℕ) → List Block → Access (List Block)
remove area p [] = none
remove area p (b ∷ bs) =
    let rest : Access (List Block) = remove area p bs in
    if same area p b then some bs else rest >>= λ l. some (b ∷ l)

-- The kernel's allocators: what an allocation returns, NULL as `none`, at a call of a run. A
-- pointer that is returned is to no block that is allocated already.
pub record Allocator : Type 0 where
  pub malloc : (area : Area) (size call : ℕ) → List Block → Option ℕ
  pub fresh :
      (area : Area) (size call : ℕ) (live : List Block) (p : ℕ)
      → malloc area size call live ≡ some p
      → holds area p live ≡ false
  -- The clock, read after so many calls.
  pub ktime_get_ns : ℕ → ℕ

abbrev pub record_block : Area → Option ℕ → Heap → Heap
record_block area none h = record h { calls = h.calls + 1 }
record_block area (some p) h = record {
  calls = h.calls + 1;
  live = h.live ++ record { area = area; address = p } ∷ [];
}

abbrev pub free : Area → ℕ → Heap → Access Heap
free area p h = remove area p h.live >>= λ l. some (record { calls = h.calls + 1; live = l })

-- if (ptr) free(ptr)
abbrev pub free_if : Area → Option ℕ → Heap → Access Heap
free_if area none h = some h
free_if area (some p) h = free area p h

-- `struct alloc_test_result`
pub record AllocTestResult : Type 0 where
  pub kmalloc_time_ns : ℕ
  pub vmalloc_time_ns : ℕ
  pub slab_time_ns : ℕ
  pub kmalloc_failures : ℕ
  pub vmalloc_failures : ℕ
  pub slab_failures : ℕ
  pub test_size : ℕ

pub record TestResults : Type 0 where
  pub small : AllocTestResult
  pub medium : AllocTestResult
  pub large : AllocTestResult

abbrev pub no_result : AllocTestResult
no_result = record {
  kmalloc_time_ns = 0;
  vmalloc_time_ns = 0;
  slab_time_ns = 0;
  kmalloc_failures = 0;
  vmalloc_failures = 0;
  slab_failures = 0;
  test_size = 0;
}

abbrev pub count_failure : Option ℕ → ℕ → ℕ
count_failure none failures = failures + 1
count_failure (some p) failures = failures

-- Loops over `n` places: the pointers, the failures counted, and the heap.
unfoldable pub alloc_loop :
    Allocator → Area → (size n failures : ℕ) → Heap → List (Option ℕ) × ℕ × Heap
alloc_loop a area size zero failures h = ([], failures, h)
alloc_loop a area size (suc n) failures h =
    let ptr : Option ℕ = a.malloc area size h.calls h.live in
    let (ptrs, failures, h) =
      alloc_loop a area size n (count_failure ptr failures) (record_block area ptr h) in
    (ptr ∷ ptrs, failures, h)

unfoldable pub free_loop : Area → List (Option ℕ) → Heap → Access Heap
free_loop area [] h = some h
free_loop area (ptr ∷ ptrs) h = free_if area ptr h >>= free_loop area ptrs

-- A difference of two u64.
abbrev pub elapsed : (start_time end_time : ℕ) → ℕ
elapsed start_time end_time = (end_time + 2 ^ 64 - start_time % 2 ^ 64) % 2 ^ 64

-- The loops that the three tests share: the elapsed time, the failures, and the heap.
unfoldable pub timed_loops : Allocator → Area → (size n : ℕ) → Heap → Access ((ℕ × ℕ) × Heap)
timed_loops a area size n h =
    let start_time : ℕ = a.ktime_get_ns h.calls in
    let (ptrs, failures, h) = alloc_loop a area size n 0 h in
    (do
      h ← free_loop area ptrs h
      some ((elapsed start_time (a.ktime_get_ns h.calls), failures), h))

unfoldable pub test_kmalloc_performance :
    Allocator → AllocTestResult → (size : ℕ) → Heap → Access (AllocTestResult × Heap)
test_kmalloc_performance a result size h = do
  ((time, failures), h) ← timed_loops a from_kmalloc size test_iterations h
  some (record result { kmalloc_time_ns = time; kmalloc_failures = failures }, h)

unfoldable pub test_vmalloc_performance :
    Allocator → AllocTestResult → (size : ℕ) → Heap → Access (AllocTestResult × Heap)
test_vmalloc_performance a result size h = do
  ((time, failures), h) ← timed_loops a from_vmalloc size test_iterations h
  some (record result { vmalloc_time_ns = time; vmalloc_failures = failures }, h)

-- The size is that of `struct demo_object`.
unfoldable pub test_slab_performance :
    Allocator → AllocTestResult → Heap → Access (AllocTestResult × Heap)
test_slab_performance a result h = do
  ((time, failures), h) ← timed_loops a from_slab small_size test_iterations h
  some (record result { slab_time_ns = time; slab_failures = failures }, h)

unfoldable pub run_performance_tests : Allocator → TestResults → Heap → Access (TestResults × Heap)
run_performance_tests a rs h = do
  (small, h) ← test_kmalloc_performance a (record rs.small { test_size = small_size }) small_size h
  (small, h) ← test_vmalloc_performance a small small_size h
  (small, h) ← test_slab_performance a small h
  (medium, h) ←
      test_kmalloc_performance a (record rs.medium { test_size = medium_size }) medium_size h
  (medium, h) ← test_vmalloc_performance a medium medium_size h
  let medium = record medium { slab_time_ns = 0; slab_failures = 0 }
  (large, h) ← test_kmalloc_performance a (record rs.large { test_size = large_size }) large_size h
  (large, h) ← test_vmalloc_performance a large large_size h
  let large = record large { slab_time_ns = 0; slab_failures = 0 }
  some (record { small = small; medium = medium; large = large }, h)

-- The pointers at even places freed and set to NULL.
unfoldable pub free_every_other : List (Option ℕ) → Heap → Access (List (Option ℕ) × Heap)
free_every_other [] h = some ([], h)
free_every_other (p ∷ []) h = do h ← free_if from_kmalloc p h; some (none ∷ [], h)
free_every_other (p ∷ q ∷ ps) h = do
  h ← free_if from_kmalloc p h
  (ps, h) ← free_every_other ps h
  some (none ∷ q ∷ ps, h)

unfoldable pub test_memory_fragmentation : Allocator → Heap → Access Heap
test_memory_fragmentation a h =
    let (large_ptrs, _, h) = alloc_loop a from_kmalloc (64 * 1024) 10 0 h in
    (do
      (large_ptrs, h) ← free_every_other large_ptrs h
      let (small_ptrs, _, h) = alloc_loop a from_kmalloc 1024 100 0 h
      h ← free_loop from_kmalloc large_ptrs h
      free_loop from_kmalloc small_ptrs h)

-- The loop goes on with `rest` where the pointer is not NULL; `h` is the heap at the break.
abbrev pub break_if_null :
    (ptr : Option ℕ) → Heap → (rest : List (Option ℕ) × Heap) → List (Option ℕ) × Heap
break_if_null none h rest = ([], h)
break_if_null (some p) h (ptrs, h') = (some p ∷ ptrs, h')

-- Allocations until one fails: the pointers up to there.
unfoldable pub until_failure : Allocator → (size n : ℕ) → Heap → List (Option ℕ) × Heap
until_failure a size zero h = ([], h)
until_failure a size (suc n) h =
    let ptr : Option ℕ = a.malloc from_kmalloc size h.calls h.live in
    let h' : Heap = record_block from_kmalloc ptr h in
    break_if_null ptr h' (until_failure a size n h')

unfoldable pub test_allocation_failures : Allocator → Heap → Access Heap
test_allocation_failures a h =
    let (ptrs, h) = until_failure a (1024 * 1024) 1000 h in free_loop from_kmalloc ptrs h

-- strncmp(s, t, n) == 0; `none` reads behind the end of an object.
unfoldable pub strncmp_equal : (n : ℕ) (s t : List ℕ) → Access Bool
strncmp_equal zero s t = some true
strncmp_equal (suc n) [] t = none
strncmp_equal (suc n) (c ∷ s) [] = none
strncmp_equal (suc n) (c ∷ s) (d ∷ t) =
    let rest : Access Bool = strncmp_equal n s t in
    if not (c == d) then some false else if c == 0 then some true else rest

-- From the test of copy_from_user's result on, with what it has left in `cmd`.
abbrev pub written_command :
    (cmd : List ℕ)
    → Allocator
    → UserMemory
    → TestResults
    → Heap
    → (count : ℕ) → Access (TestResults × Heap × Result ℕ)
written_command cmd a u rs h count =
    if not (u.from_left count == 0) then some (rs, h, err efault) else (do
      cmd ← write_at cmd count (0 ∷ [])
      test ← strncmp_equal 4 cmd (codes "test" ++ 0 ∷ [])
      frag ← strncmp_equal 4 cmd (codes "frag" ++ 0 ∷ [])
      fail ← strncmp_equal 4 cmd (codes "fail" ++ 0 ∷ [])
      (rs, h) ←
          (if test
            then run_performance_tests a rs h
            else if frag
            then (test_memory_fragmentation a h >>= λ h. some (rs, h))
            else if fail
            then (test_allocation_failures a h >>= λ h. some (rs, h))
            else some (rs, h))
      some (rs, h, ok count))

-- `stack` is what the 16 bytes of `cmd` hold before they are written.
unfoldable pub mem_demo_write :
    (stack : List ℕ)
    → Allocator
    → UserMemory
    → TestResults
    → Heap
    → (count : ℕ) → Access (TestResults × Heap × Result ℕ)
mem_demo_write stack a u rs h count =
    if leb 16 count
    then some (rs, h, err einval)
    else write_at stack 0 (u.from_user count) >>= λ cmd. written_command cmd a u rs h count

-- A u64 division; `none` divides by zero.
abbrev pub divide : (n d : ℕ) → Access ℕ
divide n d = if d == 0 then none else some (n / d)

-- The analysis at the end of `mem_demo_show`: the ratios that are printed.
unfoldable pub mem_demo_analysis : AllocTestResult → Access (List ℕ)
mem_demo_analysis small =
    if not (small.kmalloc_time_ns == 0) && not (small.vmalloc_time_ns == 0)
    then (do
      ratio ← divide small.vmalloc_time_ns small.kmalloc_time_ns
      more ←
          (if not (small.slab_time_ns == 0)
            then (divide small.kmalloc_time_ns small.slab_time_ns >>= λ r. some (r ∷ []))
            else some [])
      some (ratio ∷ more))
    else some []

-- What a loaded module holds: its slab cache, and what the initial run of the tests left.
pub record Loaded : Type 0 where
  pub demo_cache : Bool
  pub run : Access (TestResults × Heap)

unfoldable pub mem_allocator_demo_init :
    Allocator → (kmem_cache_create proc_create : Bool) → TestResults → Heap → Boot Loaded
mem_allocator_demo_init a kmem_cache_create proc_create rs h =
    if not kmem_cache_create
    then stop (record { demo_cache = false; run = some (rs, h) }) (err enomem)
    else acquire slab_cache
      ▷ (if not proc_create
          then release slab_cache
            ▷ stop (record { demo_cache = true; run = some (rs, h) }) (err enomem)
          else acquire proc_entry
            ▷ stop (record { demo_cache = true; run = run_performance_tests a rs h }) (ok 0))

unfoldable pub mem_allocator_demo_exit : Loaded → List Event
mem_allocator_demo_exit m =
    release proc_entry ∷ (if m.demo_cache then release slab_cache ∷ [] else [])
