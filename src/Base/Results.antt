-- ===== src/Base/Results.antt =====
-- The results of kernel entry points: a non-negative value or an error number, and accesses to
-- memory, which fault outside the object.
use Prim.Native.Nat.{ℕ}
use mathlib.Core.Option.{Option, none, some}

-- The error numbers that the sources name; `code` is one that a kernel call returned.
pub data Errno : Type 0 where
  enomem einval efault erestartsys enospc eexist ebusy enotty eagain eperm : Errno
  code : ℕ → Errno

pub data Result {ℓ} (A : Type ℓ) : Type ℓ where
  ok : A → Result A
  err : Errno → Result A

-- `none` is an access outside the object.
abbrev pub Access {ℓ} : Type ℓ → Type ℓ
Access A = Option A

infixl 5 ◌>>=◌
abbrev pub ◌>>=◌ {ℓ κ} : {A : Type ℓ} {B : Type κ} → Access A → (A → Access B) → Access B
none >>= f = none
some a >>= f = f a
