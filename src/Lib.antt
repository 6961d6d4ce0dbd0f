-- ===== src/Lib.antt =====
-- The kernel modules of kernel_programming, a course repository of example Linux modules, modelled as
-- functions on explicit state.
--
-- The modules stand apart from one another; three user-space programs call one of them each, and are
-- modelled with it (Ioctl/App, Shared/Client, Netlink/Client). Each module is a set of handlers that
-- the kernel calls, with the state in static variables. A model of one has a record for the state, a
-- function for each handler that takes the state and returns it with the result, and a record of what
-- the kernel answers to the calls that a handler makes. Messages to the kernel log are left out. Where
-- processes run at the same time over locks, the model is a step relation on the shared state and the
-- place of every process, and the theorems hold in every state that is reached (Deadlock, Pool, Irq,
-- Rwlock); the same goes for callbacks that run while a module is unloaded (Deferred).
--
-- Shared parts:
--   Base       Boolean tests, lists over the native numbers, memory objects as byte lists with
--              bounds-checked reads and writes, C strings, and results with error numbers.
--   Kernel     what the kernel gives and the repository does not hold, as parameters: the user's
--              buffer of a read or write call (Kernel/User), the ledger of acquired resources
--              (Kernel/Resources), what a read at a position should deliver (Kernel/Reading),
--              the client that reads to the end (Kernel/Cat), a number that a user writes
--              (Kernel/Input), the bytes of the array that it is copied to (Kernel/Buffer), a text that
--              one read delivers whole (Kernel/Once), what %d prints
--              (Kernel/Decimal), and families of executions with sums over them (Kernel/Family).
-- Parts of the repository:
--   Block      examples/class_7/01_block_device/block_demo.c
--   Vfs        examples/class_7/00_vfs_obj_imp/simple_vfs.c
--   Vma        examples/class_7/02_vma_allocation/vma_allocation.c
--   Structures examples/class_4/00_data_structures_demo/data_structures_demo.c
--   Log        examples/class_3/02_advanced_procfs/pos_demo.c
--   Alloc      examples/class_6/01_memory_allocator_demo/mem_allocator_demo.c
--   Atomic     examples/class_3/04_atomic_operations/atomic_demo.c
--   Shared     examples/class_6/02_dma_buffer_demo/shared_memory_demo.c, and Shared/Client
--              examples/class_6/02_dma_buffer_demo/shared_mem_test.c, the program that calls it
--   Deadlock   examples/class_3/09_deadlock_prevention/deadlock_demo.c
--   Pool       examples/class_3/07_mutex_semaphore/mutex_sem_demo.c: the semaphore, and in Pool/Mutex
--              the mutex and the status file
--   Ioctl      examples/class_5/08_IOCTL/ioctl_test.c, the driver, and Ioctl/App
--              examples/class_5/08_IOCTL/ioctl_app.c, the program that calls it
--   Irq        examples/class_5/00_threaded_irq_demo/threaded_irq_demo.c
--   Rwlock     examples/class_3/08_rwlock_demo/rwlock_demo.c
--   Procfs     examples/class_3/01_basic_procfs/proc_example.c
--   Spinlock   examples/class_3/06_spinlock_demo/spinlock_demo.c
--   Sysfs      examples/class_3/03_sysfs_interface/sysfs_example.c
--   Deferred   the timers, tasklets and work items of examples/class_5/01 to 07 and of
--              examples/class_5/08_IOCTL/ioctl_demo.c and
--              examples/class_4/01_interrupt_demo/interrupt_demo.c, and their exit functions
--   Asm        examples/inline_assembly/inline_assembly.c and assingments/as1/sol.c
--   Netlink    examples/class_3/05_netlink_interface/netlink_example.c, and Netlink/Client
--              examples/class_3/05_netlink_interface/netlink_test.c, the program that talks to it
--   Labs       labs/lab1/process_info.c
--   Loading    what the initialisation functions of several modules acquire and release
--   Tests      the theorems at concrete inputs, and runs.
-- Functions, structures and constants keep their C names, in lower case with underscores, types in
-- upper camel case.
--
-- Memory: an access outside an object is `none`, so a theorem that a handler returns `some` shows
-- that it stays in bounds. 64-bit and 32-bit sums are taken modulo 2 ^ 64 and 2 ^ 32 where the code
-- computes them; counts of read and write calls are at most `max_rw_count`, which the VFS enforces.
-- Loops over a list or a tree recur on it, loops over an array of fixed length on what is left of
-- it. The loop that empties the interval tree, the client that reads to the end and the traversal
-- of the log run on fuel, and theorems state how much suffices.
--
-- Not modelled: the kernel's own code, which is a parameter with its documented behaviour; logging;
-- the other user-space test programs, and the modules that only print what the kernel knows.
pub mod Base
pub mod Kernel
pub mod Block
pub mod Vfs
pub mod Vma
pub mod Structures
pub mod Log
pub mod Alloc
pub mod Atomic
pub mod Shared
pub mod Deadlock
pub mod Pool
pub mod Ioctl
pub mod Irq
pub mod Rwlock
pub mod Netlink
pub mod Labs
pub mod Procfs
pub mod Spinlock
pub mod Sysfs
pub mod Asm
pub mod Deferred
pub mod Loading
mod Tests
