-- ===== src/Loading.antt =====
-- The initialisation and exit functions of all modules that hold more than one kernel object.
use kernel_programming.Base.{ℕ, Bool, Option, none, some, Errno, arith}
use kernel_programming.Kernel.Resources.{Balanced}
use kernel_programming.Pool.Mutex.{mutex_sem_init, mutex_sem_exit}
use kernel_programming.Rwlock.{rw_lock_init, rw_lock_exit}
use kernel_programming.Procfs.{proc_init, proc_exit}
use kernel_programming.Sysfs.{sysfs_example_init, sysfs_example_exit}
use kernel_programming.Vma
use kernel_programming.Vma.Loading.{simple_vma_init-Balanced}
use kernel_programming.Shared
use kernel_programming.Shared.Commands.{shared_memory_demo_init-Balanced}
use kernel_programming.Ioctl
use kernel_programming.Ioctl.Loading.{ioctl_demo_init-Balanced}
use kernel_programming.Irq.{my_init, my_exit}
use kernel_programming.Irq.Work.{my_init-Balanced}
use kernel_programming.Alloc.{
  Allocator, Heap, TestResults, mem_allocator_demo_init, mem_allocator_demo_exit,
}
use kernel_programming.Alloc.Commands.{mem_allocator_demo_init-Balanced}

mutex_sem_init-Balanced :
    (proc_mkdir mutex semaphore status : Bool)
    → Balanced (mutex_sem_init proc_mkdir mutex semaphore status) mutex_sem_exit
unfolding mutex_sem_init mutex_sem_exit
mutex_sem_init-Balanced proc_mkdir mutex semaphore status = ground arith

rw_lock_init-Balanced :
    (jiffies : ℕ) (reader writer : Bool)
    → Balanced (rw_lock_init jiffies reader writer) rw_lock_exit
unfolding rw_lock_init rw_lock_exit
rw_lock_init-Balanced jiffies reader writer = ground arith

proc_init-Balanced :
    (kzalloc proc_create : Bool) → Balanced (proc_init kzalloc proc_create) proc_exit
unfolding proc_init proc_exit
proc_init-Balanced kzalloc proc_create = ground arith

sysfs_example_init-Balanced :
    (kobject_create : Bool) (create_group : Option Errno)
    → Balanced (sysfs_example_init kobject_create create_group) sysfs_example_exit
unfolding sysfs_example_init sysfs_example_exit
sysfs_example_init-Balanced kobject_create none = ground arith
sysfs_example_init-Balanced kobject_create (some e) = ground arith

-- Whichever kernel call fails, or none, in the initialisation of the VMA device, the shared memory
-- device, the ioctl device, the threaded interrupt demo, the allocator demo, the mutex and semaphore
-- demo, the reader-writer demo, the greeting file and the sysfs example: a failed one holds nothing
-- afterwards and has released nothing that it did not hold, and the exit function releases all that a
-- successful one acquired.
pub modules-Balanced :
    ((k : Vma.Calls) → Balanced (Vma.simple_vma_init k) Vma.simple_vma_exit)
    × ((k : Shared.Answers)
        → Balanced (Shared.shared_memory_demo_init k) Shared.shared_memory_demo_exit)
    × ((k : Ioctl.Calls) → Balanced (Ioctl.ioctl_demo_init k) Ioctl.ioctl_demo_exit)
    × ((request_threaded_irq proc_create : Bool)
        → Balanced (my_init request_threaded_irq proc_create) my_exit)
    × ((a : Allocator) (kmem_cache_create proc_create : Bool) (rs : TestResults) (h : Heap)
        → Balanced
            (mem_allocator_demo_init a kmem_cache_create proc_create rs h)
            mem_allocator_demo_exit)
    × ((proc_mkdir mutex semaphore status : Bool)
        → Balanced (mutex_sem_init proc_mkdir mutex semaphore status) mutex_sem_exit)
    × ((jiffies : ℕ) (reader writer : Bool)
        → Balanced (rw_lock_init jiffies reader writer) rw_lock_exit)
    × ((kzalloc proc_create : Bool) → Balanced (proc_init kzalloc proc_create) proc_exit)
    × ((kobject_create : Bool) (create_group : Option Errno)
        → Balanced (sysfs_example_init kobject_create create_group) sysfs_example_exit)
modules-Balanced = (
  simple_vma_init-Balanced, shared_memory_demo_init-Balanced, ioctl_demo_init-Balanced,
  my_init-Balanced, mem_allocator_demo_init-Balanced, mutex_sem_init-Balanced,
  rw_lock_init-Balanced, proc_init-Balanced, sysfs_example_init-Balanced,
)
