-- ===== src/Kernel.antt =====
-- What the modules take from the kernel: user memory, and the resources that a module's
-- initialisation acquires and its exit releases; and the shared account of reading a file.
pub mod User
pub mod Reading
pub mod Cat
pub mod Resources
pub mod Family
pub mod Input
pub mod Buffer
pub mod Once
pub mod Decimal
