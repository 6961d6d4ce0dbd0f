-- ===== src/Kernel/Decimal.antt =====
-- What %d prints for an int, as printf documents it: the kernel's printf is a parameter.
use kernel_programming.Base.{ℕ, ◌≤◌, ◌<◌, ◌^◌, List, length}

-- A number below 10 ^ k has at most k digits, and no int has more than ten and a sign.
pub record IsDecimal (decimal : ℕ → List ℕ) : Type 0 where
  pub short : (n k : ℕ) → 0 < k → n < 10 ^ k → length (decimal n) ≤ k
  pub int : (n : ℕ) → length (decimal n) ≤ 11
