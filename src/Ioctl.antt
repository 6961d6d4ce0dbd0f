-- ===== src/Ioctl.antt =====
-- examples/class_5/08_IOCTL/ioctl_test.c: a character device with an int and a string, set and read
-- by ioctl commands. Every command holds the device's mutex from its first access to its last, so
-- commands follow one another. An int is its four bytes; a pointer has eight.
use kernel_programming.Base.{
  ℕ, zero, suc, ◌+◌, ◌-◌, ◌*◌, ◌/◌, ◌%◌, ◌^◌, Bool, true, false, not, ◌&&◌, Option, none, some,
  List, [], ◌∷◌, ◌++◌, ltb, ◌==◌, length, if◌then◌else◌, take, replicate, splice, codes, strlen,
  strcpy, Errno, enotty, efault, Result, ok, err, Access, ◌>>=◌, read_at, write_at,
}
use kernel_programming.Kernel.User.{UserMemory}
use kernel_programming.Kernel.Resources.{
  Boot, Event, acquire, release, ◌▷◌, stop, chrdev_region, cdev, class, device,
}
pub mod Strings
pub mod Commands
pub mod Loading
pub mod App

-- _IOC(dir, type, nr, size) of asm-generic/ioctl.h, and the parts of a command.
abbrev pub ioc : (dir typ nr size : ℕ) → ℕ
ioc dir typ nr size = dir * 2 ^ 30 + size * 2 ^ 16 + typ * 2 ^ 8 + nr

abbrev pub ioc_dir : ℕ → ℕ
ioc_dir cmd = cmd / 2 ^ 30 % 4

abbrev pub ioc_size : ℕ → ℕ
ioc_size cmd = cmd / 2 ^ 16 % 2 ^ 14

abbrev pub ioc_type : ℕ → ℕ
ioc_type cmd = cmd / 2 ^ 8 % 2 ^ 8

abbrev pub ioc_nr : ℕ → ℕ
ioc_nr cmd = cmd % 2 ^ 8

abbrev pub ioctl_set_value : ℕ
ioctl_set_value = ioc 1 b'D' 1 4

abbrev pub ioctl_get_value : ℕ
ioctl_get_value = ioc 2 b'D' 2 4

abbrev pub ioctl_set_string : ℕ
ioctl_set_string = ioc 1 b'D' 3 8

abbrev pub ioctl_get_string : ℕ
ioctl_get_string = ioc 2 b'D' 4 8

abbrev pub ioctl_reset : ℕ
ioctl_reset = ioc 0 b'D' 5 0

abbrev pub max_string_size : ℕ
max_string_size = 256

abbrev pub default_value : List ℕ
default_value = 0 ∷ 0 ∷ 0 ∷ 0 ∷ []

abbrev pub default_string : List ℕ
default_string = codes "default_string" ++ 0 ∷ []

pub record IoctlDevice : Type 0 where
  pub value : List ℕ
  pub string : List ℕ

-- What the user has at `arg`: the memory there, whether access_ok accepts so many bytes, and the
-- string there, `none` where strncpy_from_user fails.
pub record Argument : Type 0 where
  pub memory : UserMemory
  pub access_ok : ℕ → Bool
  pub user_string : Option (List ℕ)

-- After a command: the device, what the call returns, and the bytes that reached the user.
pub record Answer : Type 0 where
  pub device_data : IoctlDevice
  pub ret : Result ℕ
  pub copied : List ℕ

abbrev pub refuse : IoctlDevice → Errno → Answer
refuse dev e = record { device_data = dev; ret = err e; copied = [] }

-- copy_to_user of a part of the device: one that fails may have delivered a first part.
abbrev pub copy_out : UserMemory → IoctlDevice → (bytes : List ℕ) → Answer
copy_out u dev bytes =
    if u.to_left bytes == 0
    then record { device_data = dev; ret = ok 0; copied = bytes }
    else record {
      device_data = dev;
      ret = err efault;
      copied = take (length bytes - u.to_left bytes) bytes;
    }

-- `stack` is what `kernel_buffer` holds before it is written.
unfoldable pub set_string :
    (stack : List ℕ) → IoctlDevice → (user_string : Option (List ℕ)) → Access Answer
set_string stack dev none = some (refuse dev efault)
set_string stack dev (some s) = do
  kernel_buffer ← write_at stack 0 (take (max_string_size - 1) (s ++ 0 ∷ []))
  kernel_buffer ← write_at kernel_buffer (max_string_size - 1) (0 ∷ [])
  string ← strcpy dev.string kernel_buffer
  some (record { device_data = record dev { string = string }; ret = ok 0; copied = [] })

unfoldable pub get_string : UserMemory → IoctlDevice → Access Answer
get_string u dev = do
  n ← strlen dev.string
  bytes ← read_at dev.string 0 (n + 1)
  some (copy_out u dev bytes)

-- The switch, with the mutex held.
unfoldable pub switch_cmd : (stack : List ℕ) → Argument → IoctlDevice → (cmd : ℕ) → Access Answer
switch_cmd stack arg dev cmd =
    let u : UserMemory = arg.memory in
    if cmd == ioctl_set_value
    then some (
        if u.from_left 4 == 0
        then record { device_data = record dev { value = u.from_user 4 }; ret = ok 0; copied = [] }
        else refuse dev efault)
    else if cmd == ioctl_get_value
    then some (copy_out u dev dev.value)
    else if cmd == ioctl_set_string
    then set_string stack dev arg.user_string
    else if cmd == ioctl_get_string
    then get_string u dev
    else if cmd == ioctl_reset
    then (do
      string ← strcpy dev.string default_string
      some (record {
        device_data = record { value = default_value; string = string };
        ret = ok 0;
        copied = [];
      }))
    else some (refuse dev enotty)

unfoldable pub ioctl_demo_ioctl :
    (stack : List ℕ) → Argument → IoctlDevice → (cmd : ℕ) → Access Answer
ioctl_demo_ioctl stack arg dev cmd =
    if not (ioc_type cmd == b'D')
    then some (refuse dev enotty)
    else if ltb 5 (ioc_nr cmd)
    then some (refuse dev enotty)
    else if (ioc_dir cmd / 2 == 1) && not (arg.access_ok (ioc_size cmd))
    then some (refuse dev efault)
    else if (ioc_dir cmd % 2 == 1) && not (arg.access_ok (ioc_size cmd))
    then some (refuse dev efault)
    else switch_cmd stack arg dev cmd

-- The static device, zeroed, and with the values that the initialisation gives it.
abbrev pub blank_device : IoctlDevice
blank_device = record { value = default_value; string = replicate max_string_size 0 }

abbrev pub fresh_device : IoctlDevice
fresh_device = record blank_device { string = splice 0 default_string blank_device.string }

-- What the kernel answers to the calls of `ioctl_demo_init`.
pub record Calls : Type 0 where
  pub alloc_chrdev_region : Option Errno
  pub class_create : Option Errno
  pub cdev_add : Option Errno
  pub device_create : Option Errno

-- The state is whether the class and the device pointer are set.
pub record Pointers : Type 0 where
  pub ioctl_class : Bool
  pub ioctl_device_ptr : Bool

abbrev pub no_pointers : Pointers
no_pointers = record { ioctl_class = false; ioctl_device_ptr = false }

unfoldable pub ioctl_demo_init : Calls → Boot Pointers
ioctl_demo_init k = elim k.alloc_chrdev_region [
  | some ret ↦ stop no_pointers (err ret)
  | none ↦ acquire chrdev_region ▷ elim k.class_create [
    | some ret ↦ release chrdev_region ▷ stop no_pointers (err ret)
    | none ↦ acquire class ▷ elim k.cdev_add [
      | some ret ↦ release class ▷ release chrdev_region ▷ stop no_pointers (err ret)
      | none ↦ acquire cdev ▷ elim k.device_create [
        | some ret ↦
            release cdev ▷ release class ▷ release chrdev_region ▷ stop no_pointers (err ret)
        | none ↦
            acquire device ▷ stop (record { ioctl_class = true; ioctl_device_ptr = true }) (ok 0)
      ]
    ]
  ]
]

unfoldable pub ioctl_demo_exit : Pointers → List Event
ioctl_demo_exit p =
    (if p.ioctl_device_ptr then release device ∷ [] else [])
    ++ (release cdev
        ∷ ((if p.ioctl_class then release class ∷ [] else []) ++ release chrdev_region ∷ []))
