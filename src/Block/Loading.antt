-- ===== src/Block/Loading.antt =====
-- Loading and unloading the block device.
use kernel_programming.Base.{ℕ, ◌*◌, ◌≡◌, some, length, length-replicate, arith, ◌<◌, ◌^◌}
use kernel_programming.Kernel.Resources.{Balanced}
use kernel_programming.Block.{
  SimpleBlockDev, Calls, simple_block_init, simple_block_exit, simple_block_size,
  kernel_sector_size,
}

-- The storage is as long as `size` says, and `size` is an `int`.
pub record IsValid (dev : SimpleBlockDev) : Type 0 where
  pub sized : length dev.bytes ≡ dev.size
  pub small : dev.size < 2 ^ 31

-- Whatever the kernel calls of `simple_block_init` answer: if one fails, all that was acquired
-- before it is released; if none fails, `simple_block_exit` releases everything. No object is
-- released that is not held.
pub simple_block_init-Balanced : (k : Calls) → Balanced (simple_block_init k) simple_block_exit
unfolding simple_block_init simple_block_exit
simple_block_init-Balanced k = ground arith

-- A device that `simple_block_init` set up has storage of its size, below 2 ^ 31, and a capacity
-- in sectors that covers exactly the storage.
pub simple_block_init-IsValid :
    (k : Calls) {dev : SimpleBlockDev}
    → (simple_block_init k).state ≡ some dev
    → IsValid dev × (dev.capacity * kernel_sector_size ≡ dev.size)
unfolding simple_block_init
simple_block_init-IsValid k h = ground (arith, length-replicate {A = ℕ} simple_block_size 0xaa)
