-- ===== src/Ioctl/App.antt =====
-- examples/class_5/08_IOCTL/ioctl_app.c: the program that sets and reads the device of ioctl_test.c.
-- Its system calls are calls of the driver; its own memory can always be read and written.
use kernel_programming.Base.{
  ℕ, zero, suc, ◌+◌, ◌≤◌, ◌≡◌, refl, Bool, true, false, not, Option, none, some, List, [], ◌∷◌,
  ◌++◌, ◌==◌, if◌then◌else◌, length, take, replicate, length-take, length-append, length-replicate,
  overlay, until_nul, strcmp_equal, codes, Result, ok, err, Access, ◌>>=◌, arith,
}
use kernel_programming.Kernel.User.{UserMemory}
use kernel_programming.Ioctl.{
  IoctlDevice, Argument, Answer, ioctl_demo_ioctl, ioctl_set_value, ioctl_get_value,
  ioctl_set_string, ioctl_get_string, ioctl_reset,
}
pub mod Runs

pub length-own : (bytes : List ℕ) (n : ℕ) → length (take n (bytes ++ replicate n 0)) ≡ n
length-own bytes n =
    length-take n (bytes ++ replicate n 0)
      (omega (arith, length-append bytes (replicate n 0), length-replicate {A = ℕ} n 0))

-- The memory of the program, with `bytes` at the address that is handed over.
abbrev pub own : List ℕ → UserMemory
own bytes = record {
  from_user = λ n. take n (bytes ++ replicate n 0);
  from_left = λ n. 0;
  length-from_user = length-own bytes;
  to_left = λ out. 0;
}

abbrev pub argument : List ℕ → Argument
argument bytes = record { memory = own bytes; access_ok = λ n. true; user_string = some bytes }

-- After a part of the program: the device, what the part returns, and what it has printed of the
-- device: an int by its bytes, a string by its characters.
pub record Outcome : Type 0 where
  pub device_data : IoctlDevice
  pub ret : ℕ
  pub shown : List (List ℕ)

abbrev pub failed : IoctlDevice → Outcome
failed dev = record { device_data = dev; ret = 1; shown = [] }

-- What a call of ioctl(fd, cmd, p) leaves, and whether it returned less than 0.
abbrev pub negative : Result ℕ → Bool
negative (ok n) = false
negative (err e) = true

-- A call that sets something: it goes on with `next` if the call succeeds.
abbrev pub setting :
    (stack : List ℕ)
    → IoctlDevice
    → (cmd : ℕ) → List ℕ
    → (IoctlDevice → Access Outcome)
    → Access Outcome
setting stack dev cmd bytes next = do
  a ← ioctl_demo_ioctl stack (argument bytes) dev cmd
  if negative a.ret then some (failed a.device_data) else next a.device_data

-- A call that reads into `buffer`; `print` is what is shown of it.
abbrev pub getting :
    (stack : List ℕ)
    → IoctlDevice
    → (cmd : ℕ) (buffer : List ℕ) (print : List ℕ → List ℕ) → (IoctlDevice → Access Outcome)
    → Access Outcome
unfolding overlay
getting stack dev cmd buffer print next = do
  a ← ioctl_demo_ioctl stack (argument buffer) dev cmd
  if negative a.ret then some (failed a.device_data) else (do
    o ← next a.device_data
    some (record o { shown = print (overlay a.copied buffer) ∷ o.shown }))

abbrev pub whole : List ℕ → List ℕ
whole bytes = bytes

abbrev pub done : IoctlDevice → Access Outcome
done dev = some (record { device_data = dev; ret = 0; shown = [] })

-- 12345 = 0x3039
abbrev pub test_value : List ℕ
test_value = 0x39 ∷ 0x30 ∷ 0 ∷ 0 ∷ []

abbrev pub zeros : ℕ → List ℕ
zeros n = replicate n 0

-- `stack` is the driver's, `value` and `string` are the program's buffers before they are written.
unfoldable pub test_value_operations :
    (stack : List ℕ) → (IoctlDevice → Access Outcome) → IoctlDevice → Access Outcome
test_value_operations stack next dev =
    setting stack dev ioctl_set_value test_value
      (λ dev. getting stack dev ioctl_get_value (zeros 4) whole next)

unfoldable pub test_string_operations :
    (stack : List ℕ) → (IoctlDevice → Access Outcome) → IoctlDevice → Access Outcome
unfolding until_nul
test_string_operations stack next dev =
    setting stack dev ioctl_set_string (codes "Hello from user space!")
      (λ dev. getting stack dev ioctl_get_string (zeros 256) until_nul next)

unfoldable pub test_reset_operation :
    (stack value string : List ℕ) → (IoctlDevice → Access Outcome) → IoctlDevice → Access Outcome
unfolding until_nul
test_reset_operation stack value string next dev = setting stack dev ioctl_reset [] (λ dev.
    getting stack dev ioctl_get_value value whole
      (λ dev. getting stack dev ioctl_get_string string until_nul next))

-- The branch of `main` for one command, with the device open. `argv2` is the third argument, where
-- there are exactly three; `atoi` gives the bytes of an int.
unfoldable pub run_command :
    (stack value string : List ℕ) (atoi : List ℕ → List ℕ)
    → IoctlDevice
    → (command : List ℕ) (argv2 : Option (List ℕ)) → Access Outcome
unfolding until_nul test_value_operations test_string_operations test_reset_operation
run_command stack value string atoi dev command argv2 =
    if strcmp_equal command (codes "set_value")
    then elim argv2 [
      | none ↦ some (failed dev)
      | some text ↦ setting stack dev ioctl_set_value (atoi text) done
    ]
    else if strcmp_equal command (codes "get_value")
    then getting stack dev ioctl_get_value value whole done
    else if strcmp_equal command (codes "set_string")
    then elim argv2 [
      | none ↦ some (failed dev)
      | some text ↦ setting stack dev ioctl_set_string (take 255 text) done
    ]
    else if strcmp_equal command (codes "get_string")
    then getting stack dev ioctl_get_string string until_nul done
    else if strcmp_equal command (codes "reset")
    then setting stack dev ioctl_reset [] done
    else if strcmp_equal command (codes "test_all")
    then test_value_operations stack
        (test_string_operations stack (test_reset_operation stack value string done)) dev
    else some (failed dev)

abbrev pub third_argument : List (List ℕ) → Option (List ℕ)
third_argument (text ∷ []) = some text
third_argument _ = none

-- `args` are the arguments behind the program's name; `opened` is whether the device can be opened.
unfoldable pub main :
    (stack value string : List ℕ) (atoi : List ℕ → List ℕ) (opened : Bool)
    → IoctlDevice
    → (args : List (List ℕ)) → Access Outcome
unfolding run_command
main stack value string atoi opened dev [] = some (failed dev)
main stack value string atoi opened dev (command ∷ rest) =
    if not opened
    then some (failed dev)
    else run_command stack value string atoi dev command (third_argument rest)
