-- ===== src/Shared.antt =====
-- examples/class_6/02_dma_buffer_demo/shared_memory_demo.c: a buffer that the kernel shares with a
-- user process, in two halves: messages from the user, and the kernel's answers. Every call of
-- `process_message` holds the device's mutex, so calls follow one another; the user's stores to the
-- mapped buffer do not wait for it.
use kernel_programming.Base.{
  ℕ, zero, suc, ◌+◌, ◌-◌, ◌*◌, ◌/◌, ◌%◌, ◌^◌, Bool, true, false, not, Option, none, some, List, [],
  ◌∷◌, ◌++◌, ltb, ◌==◌, if◌then◌else◌, take, replicate, codes, strlen, Errno, enomem, enotty,
  einval, eagain, Result, ok, err, Access, ◌>>=◌, write_at,
}
use kernel_programming.Kernel.Resources.{
  Boot, Event, acquire, release, ◌▷◌, stop, device_struct, buffer, chrdev_region, cdev, class,
  device,
}
pub mod Echo
pub mod Commands
pub mod Client
pub mod Conversation

abbrev pub buffer_size : ℕ
buffer_size = 8 * 1024

abbrev pub msg_size : ℕ
msg_size = 4 * 1024

-- _IO('S', 1)
abbrev pub shared_mem_send_msg : ℕ
shared_mem_send_msg = 0x5301

-- `user_to_kernel` is the shared buffer from its start, `kernel_to_user` from `msg_size`.
pub record SharedMemDevice : Type 0 where
  pub shared_buffer : List ℕ
  pub msg_count : ℕ

abbrev pub fresh_shared : SharedMemDevice
fresh_shared = record { shared_buffer = replicate buffer_size 0; msg_count = 0 }

unfoldable pub strnlen : (n : ℕ) → List ℕ → Access ℕ
strnlen zero cs = some 0
strnlen (suc n) [] = none
strnlen (suc n) (c ∷ cs) =
    let rest : Access ℕ = strnlen n cs in if c == 0 then some 0 else rest >>= λ len. some (suc len)

-- "Echo #%lu: %s"; `print_lu` is how the kernel's snprintf writes an unsigned long.
abbrev pub echo : (print_lu : ℕ → List ℕ) (msg_count : ℕ) → List ℕ → List ℕ
echo print_lu msg_count input = codes "Echo #" ++ (print_lu msg_count ++ (codes ": " ++ input))

-- `meanwhile` is what the user's stores make of the buffer after the kernel has terminated the
-- message and before it reads it again.
unfoldable pub process_message :
    (print_lu : ℕ → List ℕ) (meanwhile : List ℕ → List ℕ) → SharedMemDevice → Access SharedMemDevice
process_message print_lu meanwhile dev = do
  len ← strnlen (msg_size - 1) dev.shared_buffer
  buf ← write_at dev.shared_buffer len (0 ∷ [])
  let buf = meanwhile buf
  let msg_count = (dev.msg_count + 1) % 2 ^ 64
  n ← strlen buf
  let output = take (msg_size - 1) (echo print_lu msg_count (take n buf)) ++ 0 ∷ []
  buf ← write_at buf msg_size output
  some (record { shared_buffer = buf; msg_count = msg_count })

-- _IOC_TYPE(cmd)
abbrev pub ioc_type : ℕ → ℕ
ioc_type cmd = cmd / 2 ^ 8 % 2 ^ 8

unfoldable pub shared_mem_ioctl :
    (print_lu : ℕ → List ℕ) (meanwhile : List ℕ → List ℕ)
    → SharedMemDevice
    → (cmd : ℕ) → Access (SharedMemDevice × Result ℕ)
shared_mem_ioctl print_lu meanwhile dev cmd =
    if not (ioc_type cmd == b'S')
    then some (dev, err enotty)
    else if cmd == shared_mem_send_msg
    then (process_message print_lu meanwhile dev >>= λ dev. some (dev, ok 0))
    else some (dev, err enotty)

-- The length of the buffer that is mapped, from its first page on, where the call succeeds.
unfoldable pub shared_mem_mmap :
    (remap_pfn_range : ℕ → Bool) (vm_start vm_end : ℕ) → Option ℕ × Result ℕ
shared_mem_mmap remap_pfn_range vm_start vm_end =
    let size : ℕ = (vm_end + 2 ^ 64 - vm_start) % 2 ^ 64 in
    if ltb buffer_size size
    then (none, err einval)
    else if not (remap_pfn_range size)
    then (none, err eagain)
    else (some size, ok 0)

-- What the kernel answers to the calls of `shared_memory_demo_init`.
pub record Answers : Type 0 where
  pub kzalloc_device : Bool
  pub kzalloc_buffer : Bool
  pub alloc_chrdev_region : Option Errno
  pub cdev_add : Option Errno
  pub class_create : Option Errno
  pub device_create : Option Errno

abbrev err_free_device : Errno → Boot (Option SharedMemDevice)
err_free_device ret = release device_struct ▷ stop none (err ret)

abbrev err_free_buffer : Errno → Boot (Option SharedMemDevice)
err_free_buffer ret = release buffer ▷ err_free_device ret

abbrev err_unregister_chrdev : Errno → Boot (Option SharedMemDevice)
err_unregister_chrdev ret = release chrdev_region ▷ err_free_buffer ret

abbrev err_cdev_del : Errno → Boot (Option SharedMemDevice)
err_cdev_del ret = release cdev ▷ err_unregister_chrdev ret

abbrev err_class_destroy : Errno → Boot (Option SharedMemDevice)
err_class_destroy ret = release class ▷ err_cdev_del ret

unfoldable pub shared_memory_demo_init : Answers → Boot (Option SharedMemDevice)
shared_memory_demo_init k =
    if not k.kzalloc_device
    then stop none (err enomem)
    else acquire device_struct
      ▷ (if not k.kzalloc_buffer
          then err_free_device enomem
          else acquire buffer ▷ elim k.alloc_chrdev_region [
            | some ret ↦ err_free_buffer ret
            | none ↦ acquire chrdev_region ▷ elim k.cdev_add [
              | some ret ↦ err_unregister_chrdev ret
              | none ↦ acquire cdev ▷ elim k.class_create [
                | some ret ↦ err_cdev_del ret
                | none ↦ acquire class ▷ elim k.device_create [
                  | some ret ↦ err_class_destroy ret
                  | none ↦ acquire device ▷ stop (some fresh_shared) (ok 0)
                ]
              ]
            ]
          ])

unfoldable pub shared_memory_demo_exit : Option SharedMemDevice → List Event
shared_memory_demo_exit dev =
    release device
    ∷ release class
    ∷ release cdev
    ∷ release chrdev_region
    ∷ release buffer
    ∷ release device_struct
    ∷ []
