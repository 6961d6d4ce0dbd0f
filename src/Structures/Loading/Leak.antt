-- ===== src/Structures/Loading/Leak.antt =====
-- A load of the demo that fails at its /proc file: what stays allocated.
use mathlib.Core.List.Perm
use mathlib.Core.List.{Perm}
use kernel_programming.Base.{List}
