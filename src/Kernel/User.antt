-- ===== src/Kernel/User.antt =====
-- The user's buffer of one read or write call, as uaccess.h documents it. The kernel is not part
-- of the repository: a handler takes this record as a parameter.
use kernel_programming.Base.{ℕ, ◌≡◌, List, length, replicate, length-replicate}

pub record UserMemory : Type 0 where
  -- For `copy_from_user(to, from, n)`: the `n` bytes that `to` then holds (the tail that could not
  -- be read is zeroed), and the number of bytes that were not copied.
  pub from_user : ℕ → List ℕ
  pub from_left : ℕ → ℕ
  pub length-from_user : (n : ℕ) → length (from_user n) ≡ n
  -- For `copy_to_user(to, from, n)`: the number of bytes that were not copied.
  pub to_left : List ℕ → ℕ

-- The largest count that the VFS hands to a read or write handler (fs/read_write.c).
abbrev pub max_rw_count : ℕ
max_rw_count = 0x7fff_f000

-- A buffer that is mapped, and holds the byte `b` throughout.
abbrev pub mapped : ℕ → UserMemory
mapped b = record {
  from_user = λ n. replicate n b;
  from_left = λ n. 0;
  length-from_user = λ n. length-replicate n b;
  to_left = λ bs. 0;
}

-- A buffer that is not mapped at all.
abbrev pub unmapped : UserMemory
unmapped = record {
  from_user = λ n. replicate n 0;
  from_left = λ n. n;
  length-from_user = λ n. length-replicate n 0;
  to_left = λ bs. length bs;
}
