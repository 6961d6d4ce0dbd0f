-- ===== src/Ioctl/Loading.antt =====
-- Loading and unloading the ioctl device.
use kernel_programming.Base.{arith}
use kernel_programming.Kernel.Resources.{Balanced}
use kernel_programming.Ioctl.{Calls, ioctl_demo_init, ioctl_demo_exit}

-- Whatever the kernel calls of `ioctl_demo_init` answer: a failure leaves nothing behind, and
-- `ioctl_demo_exit` releases what a successful initialisation acquired.
pub ioctl_demo_init-Balanced : (k : Calls) → Balanced (ioctl_demo_init k) ioctl_demo_exit
unfolding ioctl_demo_init ioctl_demo_exit
ioctl_demo_init-Balanced k = ground arith
