-- ===== src/Vma/Loading.antt =====
-- Loading and unloading the VMA device.
use kernel_programming.Base.{
  ℕ, ◌≡◌, refl, false, length, length-replicate, length-splice, arith, ◌∙◌, replicate,
}
use kernel_programming.Kernel.Resources.{Balanced}
use kernel_programming.Vma.{
  SimpleVmaDev, Calls, simple_vma_init, simple_vma_exit, buffer_size, fresh_device,
}

-- The buffer has its size, and nobody holds the mutex: the state between two calls.
pub record IsIdle (dev : SimpleVmaDev) : Type 0 where
  pub sized : length dev.bytes ≡ buffer_size
  pub unlocked : dev.locked ≡ false

-- Whatever the kernel calls of `simple_vma_init` answer: if one fails, all that was acquired before
-- it is released; if none fails, `simple_vma_exit` releases everything. No object is released that
-- is not held.
pub simple_vma_init-Balanced : (k : Calls) → Balanced (simple_vma_init k) simple_vma_exit
unfolding simple_vma_init simple_vma_exit
simple_vma_init-Balanced k = ground arith

pub fresh_device-IsIdle : IsIdle fresh_device
fresh_device-IsIdle = record {
  sized =
      length-splice {A = ℕ} 0 _ (replicate buffer_size 0x42) ∙ length-replicate buffer_size 0x42;
  unlocked = refl;
}
