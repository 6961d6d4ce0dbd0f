-- ===== src/Tests/Vma.antt =====
-- The VMA device at the state that its initialisation leaves.
use kernel_programming.Base.{
  ℕ, ◌+◌, ◌-◌, ◌*◌, ◌/◌, ◌<◌, ◌≡◌, refl, true, false, Option, none, some, arith, ok, enomem, leb,
  if◌then◌else◌,
}
use kernel_programming.Kernel.User.{mapped}
use kernel_programming.Vma.{
  SimpleVmaDev, Vma, VmFault, sigbus, handled, Calls, example_char_read, example_char_write,
  example_char_mmap, example_vma_fault, fresh_device, buffer_size, page_size,
}
use kernel_programming.Vma.Loading.{fresh_device-IsIdle}
use kernel_programming.Vma.Mapping.{IsFault, byte_of, vma_fault_lem, mmap-fault}
use kernel_programming.Vma.ReadWrite.{accepted, char_read-char_write}

abbrev no_class : Calls
no_class = record {
  kzalloc = true;
  vmalloc = true;
  alloc_chrdev_region = none;
  cdev_add = none;
  class_create = some enomem;
  device_create = none;
}

char_read-char_write_example :
    (dev' : SimpleVmaDev) × (end : ℕ) × (example_char_write (mapped 1) false fresh_device 100 16380
      ≡ some (dev', record { result = ok (accepted 100 16380); pos = end }))
    × (example_char_read (mapped 0) false dev' (accepted 100 16380) 16380
        ≡ some (
          dev',
          record {
            result = ok (accepted 100 16380);
            pos = end;
            delivered = (mapped 1).from_user (accepted 100 16380);
          },
        ))
char_read-char_write_example =
    char_read-char_write (mapped 1) (mapped 0) fresh_device 100 16380 fresh_device-IsIdle
      (omega arith) (omega arith) refl refl

-- The buffer at 2 ^ 40, backed by the pages from 100 on.
abbrev base : ℕ
base = 0x100_0000_0000

abbrev to_page : ℕ → Option ℕ
to_page a = some (100 + (a - base) / page_size)

abbrev area : Vma
area = record {
  vm_start = 0x7000_0000;
  vm_end = 0x7000_3000;
  vm_pgoff = 0;
  dont_expand = false;
  dont_dump = false;
  has_ops = false;
}

abbrev mapped_area : Vma
mapped_area = record area { dont_expand = true; dont_dump = true; has_ops = true }

abbrev fault : VmFault
fault = record { address = 0x7000_2345; pgoff = 2 }

fault-IsFault : IsFault mapped_area fault
fault-IsFault = omega arith

backed : (i : ℕ) → i < 4 → to_page (base + i * page_size) ≡ some (100 + i)
backed i h = ground arith

vma_fault_lem_example : example_vma_fault to_page base mapped_area fault ≡ (
    if leb buffer_size (byte_of mapped_area fault)
    then sigbus
    else handled (100 + byte_of mapped_area fault / page_size))
vma_fault_lem_example =
    vma_fault_lem to_page base (λ i. 100 + i) (omega arith) backed mapped_area fault fault-IsFault

mmap-fault_example :
    example_vma_fault to_page base mapped_area fault
    ≡ handled (100 + (fault.address - area.vm_start) / page_size)
unfolding example_char_mmap
mmap-fault_example =
    mmap-fault to_page base (λ i. 100 + i) (omega arith) backed area mapped_area fault refl refl
      fault-IsFault
