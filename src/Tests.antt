-- ===== src/Tests.antt =====
-- The theorems at concrete inputs, and runs of the operations.
pub mod Block
pub mod Vfs
pub mod Vma
pub mod Structures
pub mod Log
pub mod Alloc
pub mod Atomic
pub mod Shared
pub mod Deadlock
pub mod Asm
pub mod Decimal
pub mod Deferred
pub mod Handlers
pub mod Labs
pub mod Netlink
pub mod Pool
pub mod Ioctl
pub mod Irq
pub mod Rwlock
