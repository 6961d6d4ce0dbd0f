-- ===== src/Kernel/Input.antt =====
-- A number that a user writes to a file: the text is copied to a buffer of `size` bytes, ended by a
-- NUL, and given to kstrtoint, which is the kernel's: `none` is an error, else the int's 32 bits.
use kernel_programming.Base.{
  ℕ, Option, none, some, List, [], ◌∷◌, ◌++◌, leb, ◌==◌, if◌then◌else◌, not, until_nul, Result, ok,
  err, einval, efault,
}
use kernel_programming.Kernel.User.{UserMemory}

abbrev pub number_of : Option ℕ → Result ℕ
number_of none = err einval
number_of (some value) = ok value

unfoldable pub int_input :
    (size : ℕ) → UserMemory → (kstrtoint : List ℕ → Option ℕ) → (count : ℕ) → Result ℕ
int_input size u kstrtoint count =
    if leb size count
    then err einval
    else if not (u.from_left count == 0)
    then err efault
    else number_of (kstrtoint (until_nul (u.from_user count ++ 0 ∷ [])))
