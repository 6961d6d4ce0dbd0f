-- ===== src/Shared/Commands.antt =====
-- The ioctl commands of shared_memory_demo.c, its loading, and a race with the user's stores.
use kernel_programming.Base.{
  ℕ, ◌≡◌, refl, inl, inr, some, List, ◌==◌, if◌then◌else◌, ◌>>=◌, arith, Bool-cases, ok, err,
  enotty,
}
use kernel_programming.Kernel.Resources.{Balanced}
use kernel_programming.Shared.{
  SharedMemDevice, process_message, shared_mem_ioctl, ioc_type, Answers, shared_memory_demo_init,
  shared_memory_demo_exit,
}

-- The one command that is served is _IO('S', 1); any other reports that it is unknown and leaves
-- the device as it was.
pub ioctl_lem :
    (print_lu : ℕ → List ℕ) (meanwhile : List ℕ → List ℕ) (dev : SharedMemDevice) (cmd : ℕ)
    → shared_mem_ioctl print_lu meanwhile dev cmd ≡ (
        if cmd == 0x5301
        then (process_message print_lu meanwhile dev >>= λ dev. some (dev, ok 0))
        else some (dev, err enotty))
unfolding shared_mem_ioctl
ioctl_lem print_lu meanwhile dev cmd = elim (Bool-cases (cmd == 0x5301)) [
  | inl e ↦ let send : cmd ≡ 0x5301 = ground arith in rw send refl
  | inr e ↦ elim (Bool-cases (ioc_type cmd == b'S')) [ inl t ↦ rw (t, e) | inr t ↦ rw (t, e) ]
]

-- Whatever the kernel calls of `shared_memory_demo_init` answer: after a failure nothing is held,
-- and `shared_memory_demo_exit` releases all that a successful initialisation acquired.
pub shared_memory_demo_init-Balanced :
    (k : Answers) → Balanced (shared_memory_demo_init k) shared_memory_demo_exit
unfolding shared_memory_demo_init shared_memory_demo_exit
shared_memory_demo_init-Balanced k = ground arith
