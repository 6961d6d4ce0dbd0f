-- ===== src/Vma.antt =====
-- examples/class_7/02_vma_allocation/vma_allocation.c: a character device over a vmalloc'd buffer
-- of four pages, read and written at the file position under a mutex, and mapped page by page on
-- faults. `unsigned long`, `size_t` and `loff_t` have 64 bits.
use kernel_programming.Base.{
  ℕ, zero, suc, ◌+◌, ◌-◌, ◌*◌, ◌/◌, ◌%◌, ◌^◌, ◌≤◌, ◌<◌, ◌≡◌, Bool, true, false, Option, none, some,
  List, [], ◌∷◌, ◌++◌, ltb, leb, ◌==◌, if◌then◌else◌, length, replicate, splice, Errno, enomem,
  einval, enospc, efault, erestartsys, Result, ok, err, Access, ◌>>=◌, read_at, write_at,
}
use kernel_programming.Kernel.User.{UserMemory}
use kernel_programming.Kernel.Reading.{Reading}
use kernel_programming.Kernel.Resources.{
  device_struct, buffer, chrdev_region, cdev, class, device, Event, acquire, release, Boot, ◌▷◌,
  stop,
}
pub mod ReadWrite
pub mod Mapping
pub mod Loading

abbrev pub page_size : ℕ
page_size = 4096

abbrev pub buffer_size : ℕ
buffer_size = page_size * 4

-- `struct simple_vma_dev`: the buffer, and whether the mutex is held.
pub record SimpleVmaDev : Type 0 where
  pub bytes : List ℕ
  pub locked : Bool

abbrev mutex_lock : SimpleVmaDev → SimpleVmaDev
mutex_lock dev = record dev { locked = true }

abbrev mutex_unlock : SimpleVmaDev → SimpleVmaDev
mutex_unlock dev = record dev { locked = false }

abbrev reading : Result ℕ → ℕ → List ℕ → Reading
reading r pos bs = record { result = r; pos = pos; delivered = bs }

-- `interrupted`: a signal ends the wait for the mutex.
pub example_char_read :
    UserMemory
    → (interrupted : Bool) → SimpleVmaDev
    → (count pos : ℕ) → Access (SimpleVmaDev × Reading)
example_char_read u interrupted dev count pos =
    if interrupted
    then some (dev, reading (err erestartsys) pos [])
    else (let dev = mutex_lock dev in
        if leb buffer_size pos then some (mutex_unlock dev, reading (ok 0) pos []) else (do
          let count = if ltb buffer_size ((pos + count) % 2 ^ 64) then buffer_size - pos else count
          chunk ← read_at dev.bytes pos count
          some (
            mutex_unlock dev,
            if u.to_left chunk == 0
                then reading (ok count) ((pos + count) % 2 ^ 64) chunk
                else reading (err efault) pos [],
          )))

-- The result and the position after a write.
pub record Written : Type 0 where
  pub result : Result ℕ
  pub pos : ℕ

pub example_char_write :
    UserMemory
    → (interrupted : Bool) → SimpleVmaDev
    → (count pos : ℕ) → Access (SimpleVmaDev × Written)
example_char_write u interrupted dev count pos =
    if interrupted
    then some (dev, record { result = err erestartsys; pos = pos })
    else (let dev = mutex_lock dev in
        if leb buffer_size pos
        then some (mutex_unlock dev, record { result = err enospc; pos = pos })
        else (do
          let count = if ltb buffer_size ((pos + count) % 2 ^ 64) then buffer_size - pos else count
          bytes ← write_at dev.bytes pos (u.from_user count)
          let dev = record dev { bytes = bytes }
          some (
            mutex_unlock dev,
            if u.from_left count == 0
                then record { result = ok count; pos = (pos + count) % 2 ^ 64 }
                else record { result = err efault; pos = pos },
          )))

-- `struct vm_area_struct`, as far as the module reads and sets it.
pub record Vma : Type 0 where
  pub vm_start : ℕ
  pub vm_end : ℕ
  pub vm_pgoff : ℕ
  pub dont_expand : Bool
  pub dont_dump : Bool
  pub has_ops : Bool

unfoldable pub example_char_mmap : Vma → Vma × Result ℕ
example_char_mmap vma =
    let size : ℕ = (vma.vm_end + 2 ^ 64 - vma.vm_start) % 2 ^ 64 in
    if ltb buffer_size size
    then (vma, err einval)
    else (record vma { dont_expand = true; dont_dump = true; has_ops = true }, ok 0)

-- `struct vm_fault` of a fault in the area.
pub record VmFault : Type 0 where
  pub address : ℕ
  pub pgoff : ℕ

pub data FaultResult : Type 0 where
  sigbus : FaultResult
  -- the page that `vmf->page` is set to, with a reference taken
  handled : (page : ℕ) → FaultResult

-- `buf` is the address of the buffer and `vmalloc_to_page` the kernel's lookup of the page that
-- backs a vmalloc address.
pub example_vma_fault : (vmalloc_to_page : ℕ → Option ℕ) (buf : ℕ) → Vma → VmFault → FaultResult
example_vma_fault vmalloc_to_page buf vma vmf =
    let offset : ℕ =
      ((vmf.address + 2 ^ 64 - vma.vm_start) % 2 ^ 64 + vma.vm_pgoff * page_size % 2 ^ 64)
      % 2 ^ 64 in
    if leb buffer_size offset
    then sigbus
    else (let page_ptr : ℕ = (buf + vmf.pgoff * page_size % 2 ^ 64) % 2 ^ 64 in
        elim (vmalloc_to_page page_ptr) [ none ↦ sigbus | some page ↦ handled page ])

-- What the kernel answers to the calls of `simple_vma_init`.
pub record Calls : Type 0 where
  pub kzalloc : Bool
  pub vmalloc : Bool
  pub alloc_chrdev_region : Option Errno
  pub cdev_add : Option Errno
  pub class_create : Option Errno
  pub device_create : Option Errno

-- The labels at the end of `simple_vma_init`, each falling through to the next.
abbrev err_free_dev : Errno → Boot (Option SimpleVmaDev)
err_free_dev ret = release device_struct ▷ stop none (err ret)

abbrev err_free_buffer : Errno → Boot (Option SimpleVmaDev)
err_free_buffer ret = release buffer ▷ err_free_dev ret

abbrev err_unreg_chrdev : Errno → Boot (Option SimpleVmaDev)
err_unreg_chrdev ret = release chrdev_region ▷ err_free_buffer ret

abbrev err_del_cdev : Errno → Boot (Option SimpleVmaDev)
err_del_cdev ret = release cdev ▷ err_unreg_chrdev ret

abbrev err_destroy_class : Errno → Boot (Option SimpleVmaDev)
err_destroy_class ret = release class ▷ err_del_cdev ret

-- "Hello from kernel VMA example!\n" and its NUL
abbrev hello : List ℕ
hello =
    b'H' ∷ b'e' ∷ b'l' ∷ b'l' ∷ b'o' ∷ b' ' ∷ b'f' ∷ b'r' ∷ b'o' ∷ b'm' ∷ b' ' ∷ b'k' ∷ b'e' ∷ b'r'
    ∷ b'n' ∷ b'e' ∷ b'l' ∷ b' ' ∷ b'V' ∷ b'M' ∷ b'A' ∷ b' ' ∷ b'e' ∷ b'x' ∷ b'a' ∷ b'm' ∷ b'p'
    ∷ b'l' ∷ b'e' ∷ b'!' ∷ 10 ∷ 0 ∷ []

abbrev pub fresh_device : SimpleVmaDev
fresh_device = record { bytes = splice 0 hello (replicate buffer_size 0x42); locked = false }

-- The state is the device that `vma_dev` leads to: none before it is allocated and after it is
-- freed.
unfoldable pub simple_vma_init : Calls → Boot (Option SimpleVmaDev)
simple_vma_init k =
    if k.kzalloc
    then acquire device_struct
      ▷ (if k.vmalloc
          then acquire buffer ▷ (elim k.alloc_chrdev_region [
            | some e ↦ err_free_buffer e
            | none ↦ acquire chrdev_region ▷ (elim k.cdev_add [
              | some e ↦ err_unreg_chrdev e
              | none ↦ acquire cdev ▷ (elim k.class_create [
                | some e ↦ err_del_cdev e
                | none ↦ acquire class ▷ (elim k.device_create [
                  | some e ↦ err_destroy_class e
                  | none ↦ acquire device ▷ stop (some fresh_device) (ok 0)
                ])
              ])
            ])
          ])
          else err_free_dev enomem)
    else stop none (err enomem)

pub simple_vma_exit : Option SimpleVmaDev → List Event
simple_vma_exit none = []
simple_vma_exit (some dev) =
    release device
    ∷ release class
    ∷ release cdev
    ∷ release chrdev_region
    ∷ release buffer
    ∷ release device_struct
    ∷ []
