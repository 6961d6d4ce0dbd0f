-- ===== src/Sysfs.antt =====
-- examples/class_3/03_sysfs_interface/sysfs_example.c: a number and a string as attributes. `buf` is
-- the kernel's buffer, with what the user wrote and a NUL behind it.
use kernel_programming.Base.{
  strncpy_bytes, ℕ, zero, suc, List, [], ◌∷◌, ◌++◌, codes, replicate, strlen, read_at, write_at,
  leb, ◌==◌, if◌then◌else◌, Bool, not, Option, some, none, Access, ◌>>=◌, Result, ok, err, Errno,
  einval, enomem,
}
use kernel_programming.Kernel.Resources.{
  Boot, Event, acquire, release, ◌▷◌, stop, kobject, sysfs_group,
}
pub mod Strings

-- `example_value` is the 32 bits of an int.
pub record Example : Type 0 where
  pub example_value : ℕ
  pub example_string : List ℕ

abbrev pub string_size : ℕ
string_size = 64

abbrev pub fresh_example : Example
fresh_example = record { example_value = 0; example_string = codes "default" ++ replicate 57 0 }

-- `decimal` is what %d prints.
unfoldable pub value_show : (decimal : ℕ → List ℕ) → Example → List ℕ
value_show decimal x = decimal x.example_value ++ codes "\n"

abbrev pub value_parsed : (count : ℕ) → Example → Result ℕ → Example × Result ℕ
value_parsed count x (err e) = (x, err e)
value_parsed count x (ok value) = (record x { example_value = value }, ok count)

unfoldable pub value_store :
    (kstrtoint : List ℕ → Result ℕ) → (buf : List ℕ) (count : ℕ) → Example → Example × Result ℕ
value_store kstrtoint buf count x = value_parsed count x (kstrtoint buf)

-- sprintf(buf, "%s\n", example_string) reads the string to its NUL.
unfoldable pub string_show : Example → Access (List ℕ)
string_show x = do
  n ← strlen x.example_string
  text ← read_at x.example_string 0 n
  some (text ++ codes "\n")

-- example_string[count - 1] = '\0', which for a count of 0 is outside the array.
abbrev pub ended : (string : List ℕ) (count : ℕ) → Access (List ℕ)
ended string zero = none
ended string (suc last) = write_at string last (0 ∷ [])

unfoldable pub string_store : (buf : List ℕ) (count : ℕ) → Example → Access (Example × Result ℕ)
string_store buf count x = if leb string_size count then some (x, err einval) else do
  string ← write_at x.example_string 0 (strncpy_bytes count buf)
  string ← ended string count
  some (record x { example_string = string }, ok count)

-- Whether the kobject can be made, and the result of sysfs_create_group.
unfoldable pub sysfs_example_init :
    (kobject_create : Bool) (create_group : Option Errno) → Boot Example
sysfs_example_init kobject_create create_group =
    if not kobject_create
    then stop fresh_example (err enomem)
    else acquire kobject ▷ elim create_group [
      | some e ↦ release kobject ▷ stop fresh_example (err e)
      | none ↦ acquire sysfs_group ▷ stop fresh_example (ok 0)
    ]

unfoldable pub sysfs_example_exit : Example → List Event
sysfs_example_exit x = release sysfs_group ∷ release kobject ∷ []
