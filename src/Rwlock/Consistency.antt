-- ===== src/Rwlock/Consistency.antt =====
-- What the readers of the reader-writer demo see, in any interleaving of any number of processes.
use kernel_programming.Base.{ℕ, ◌≤◌, ◌<◌, ◌≡◌, inl, inr, ◌⊎◌, ap, subst, Bool-cases, List, arith}
use mathlib.Core.List.{Mem}
use kernel_programming.Kernel.Family.{total}
use kernel_programming.Rwlock.{Update, unlocked, System, Reach}
use kernel_programming.Rwlock.Lock.{shares, owns, bit, bit_le, Loaded}
use kernel_programming.Rwlock.Invariant.{Reach-Inv}

-- In every state that any number of processes reach, whenever `rw_lock_init` makes its store to
-- `last_update`: the value and the time that a reader has loaded, one after the other, are one of the
-- pairs so far, which are the two static zeros, what a writer has stored with the lock held, and the
-- time that `rw_lock_init` has stored with the value that stood then; at most one process holds the
-- lock as a writer; and there is no writer or no reader that holds it.
pub Reach-consistent :
    (n : ℕ) (h : List Update) (s : System) (i local_data local_time : ℕ)
    → Reach n h s
    → i < n
    → s.place i ≡ unlocked local_data local_time
    → Mem (local_data, local_time) h
      × (total owns n s.place ≤ 1)
      × ((total owns n s.place ≡ 0) ⊎ (total shares n s.place ≡ 0))
Reach-consistent n h s i d t reach lt at =
    let inv = Reach-Inv n h s reach in
    let seen : Loaded h s.shared (unlocked d t) = subst (Loaded h s.shared) at (inv.loaded i lt) in
    let on : bit s.shared.written ≤ 1 = bit_le s.shared.written in
    let l = inv.lock in
    (
      seen,
      omega (arith, on, l.writers),
      elim (Bool-cases s.shared.written) [
        | inl w ↦ let e = l.exclusive w in inr (omega (arith, e, l.readers))
        | inr w ↦
            let off : bit s.shared.written ≡ 0 = ap bit w in inl (omega (arith, off, l.writers))
      ],
    )
