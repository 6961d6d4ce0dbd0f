-- ===== src/Vma/Mapping.antt =====
-- Mapping the buffer of the VMA device: which page a fault gets.
use kernel_programming.Base.{
  ℕ, ◌+◌, ◌-◌, ◌*◌, ◌/◌, ◌%◌, ◌^◌, ◌≤◌, ◌<◌, ◌≡◌, false, Option, some, arith, leb, lt→leb,
  Bool-cases, inl, inr, if◌then◌else◌, ok,
}
use kernel_programming.Vma.{
  Vma, VmFault, sigbus, handled, example_char_mmap, example_vma_fault, buffer_size, page_size,
}

-- What the kernel guarantees of a fault: the address lies in the area, which starts on a page, and
-- `pgoff` is the page of the file that the address maps.
pub record IsFault (vma : Vma) (vmf : VmFault) : Type 0 where
  pub above : vma.vm_start ≤ vmf.address
  pub below : vmf.address < vma.vm_end
  pub bounded : vma.vm_end < 2 ^ 64
  pub page : vmf.pgoff ≡ (vmf.address - vma.vm_start) / page_size + vma.vm_pgoff

-- The byte of the buffer that the address maps, modulo 2 ^ 64.
abbrev pub byte_of : Vma → VmFault → ℕ
byte_of vma vmf = ((vmf.address - vma.vm_start) + vma.vm_pgoff * page_size) % 2 ^ 64

-- The module's own 64-bit offset is that byte.
offset_lem :
    (vma : Vma) (vmf : VmFault)
    → IsFault vma vmf
    → ((vmf.address + 2 ^ 64 - vma.vm_start) % 2 ^ 64 + vma.vm_pgoff * page_size % 2 ^ 64) % 2 ^ 64
      ≡ byte_of vma vmf
offset_lem vma vmf f = omega arith

-- The page that the module looks up is the one that holds the byte, also where `pgoff` wraps.
page_lem :
    (vma : Vma) (vmf : VmFault)
    → IsFault vma vmf
    → byte_of vma vmf < buffer_size
    → vmf.pgoff * page_size % 2 ^ 64 ≡ byte_of vma vmf / page_size * page_size
page_lem vma vmf f h = omega arith

module _ (vmalloc_to_page : ℕ → Option ℕ) (buf : ℕ) (pages : ℕ → ℕ)
    (placed : buf + buffer_size ≤ 2 ^ 64)
    (backed : (i : ℕ) → i < 4 → vmalloc_to_page (buf + i * page_size) ≡ some (pages i)) where
  -- For a buffer at `buf` that is backed by the four pages `pages`, and any fault as the kernel
  -- reports them, in an area with any file offset: a fault at a byte at or behind the end of the
  -- buffer, computed modulo 2 ^ 64, gets SIGBUS, and any other gets the page of the buffer that
  -- holds its byte. No address outside the buffer is looked up.
  pub vma_fault_lem :
      (vma : Vma) (vmf : VmFault)
      → IsFault vma vmf
      → example_vma_fault vmalloc_to_page buf vma vmf ≡ (
          if leb buffer_size (byte_of vma vmf)
          then sigbus
          else handled (pages (byte_of vma vmf / page_size)))
  unfolding example_vma_fault
  vma_fault_lem vma vmf f = elim (Bool-cases (leb buffer_size (byte_of vma vmf))) [
    | inl out ↦ rw (offset_lem vma vmf f, out)
    | inr inside ↦
        let lt : byte_of vma vmf < buffer_size = ground arith in
        let i : ℕ = byte_of vma vmf / page_size in
        let small : (buf + i * page_size) % 2 ^ 64 ≡ buf + i * page_size = omega arith in
        rw (offset_lem vma vmf f, inside, page_lem vma vmf f lt, small, backed i (omega arith))
  ]

  -- An area at file offset 0 that `mmap` accepts, with whatever bounds: every fault in it is
  -- handled, with the page of the buffer that lies as far behind its start as the address behind
  -- the start of the area.
  pub mmap-fault :
      (vma vma' : Vma) (vmf : VmFault)
      → example_char_mmap vma ≡ (vma', ok 0)
      → vma.vm_pgoff ≡ 0
      → IsFault vma' vmf
      → example_vma_fault vmalloc_to_page buf vma' vmf
        ≡ handled (pages ((vmf.address - vma.vm_start) / page_size))
  unfolding example_char_mmap
  mmap-fault vma vma' vmf mapped offset f =
      let kept : (vma'.vm_pgoff ≡ 0)
          × (vma'.vm_start ≡ vma.vm_start)
          × (vma'.vm_end ≡ vma.vm_end)
          × ((vma.vm_end + 2 ^ 64 - vma.vm_start) % 2 ^ 64 ≤ buffer_size) =
        ground arith in
      let (no_offset, start, end, size) = kept in
      let byte : byte_of vma' vmf ≡ vmf.address - vma.vm_start = omega arith in
      let inside : leb buffer_size (vmf.address - vma.vm_start) ≡ false =
        lt→leb _ _ (omega arith) in
      rw (vma_fault_lem vma' vmf f, byte, inside)
