-- ===== src/Rwlock/Lock.antt =====
-- The lock of the reader-writer demo against the places of the processes, and that a move keeps it.
use kernel_programming.Base.{ℕ, ◌+◌, ◌≤◌, ◌≡◌, ap, Bool, true, false, List, ◌++◌, arith}
use mathlib.Core.List.{Mem, mem-cons_self}
use kernel_programming.Kernel.Family.{total}
use kernel_programming.Rwlock.{
  SharedData, Update, Place, reading, read_data, read_both, unlocked, writing, stored_data,
  stored_both, Move, read_lock, load_data, load_time, read_unlock, finished, write_lock, store_data,
  store_time, write_unlock,
}

-- Holding the lock as a reader.
abbrev pub shares : Place → ℕ
shares reading = 1
shares (read_data _) = 1
shares (read_both _ _) = 1
shares _ = 0

-- Holding the lock as a writer.
abbrev pub owns : Place → ℕ
owns (writing _) = 1
owns (stored_data _) = 1
owns (stored_both _) = 1
owns _ = 0

-- Between the two stores of a writer.
abbrev pub halfway : Place → ℕ
halfway (stored_data _) = 1
halfway _ = 0

abbrev pub bit : Bool → ℕ
bit true = 1
bit false = 0

pub bit_le : (b : Bool) → bit b ≤ 1
bit_le true = omega arith
bit_le false = omega arith

-- The value that a reader has loaded is the one that stands, while it holds the lock; with the time it
-- is one of the pairs.
abbrev pub Loaded : (h : List Update) → SharedData → Place → Type 0
Loaded h s (read_data d) = d ≡ s.shared_data
Loaded h s (read_both d t) = (d ≡ s.shared_data) × Mem (d, t) h
Loaded h s (unlocked d t) = Mem (d, t) h
Loaded h s (stored_data v) = v ≡ s.shared_data
Loaded h s _ = Unit {0}

pub record Totals : Type 0 where
  pub sharing : ℕ
  pub owning : ℕ
  pub between : ℕ

abbrev pub totals : (n : ℕ) → (ℕ → Place) → Totals
totals n place = record {
  sharing = total shares n place;
  owning = total owns n place;
  between = total halfway n place;
}

pub record Lock (h : List Update) (s : SharedData) (t : Totals) : Type 0 where
  pub readers : s.readers ≡ t.sharing
  pub writers : bit s.written ≡ t.owning
  pub exclusive : (s.written ≡ true) → s.readers ≡ 0
  pub current : t.between ≡ 0 → Mem (s.shared_data, s.last_update) h

pub record Changed (p p' : Place) (t t' : Totals) : Type 0 where
  pub sharing : t'.sharing + shares p ≡ t.sharing + shares p'
  pub owning : t'.owning + owns p ≡ t.owning + owns p'
  pub between : t'.between + halfway p ≡ t.between + halfway p'

-- What the mover's place says of the totals.
pub record Counts (p : Place) (t : Totals) : Type 0 where
  pub shared : shares p ≤ t.sharing
  pub owned : owns p ≤ t.owning

pub Move-Lock :
    (h us : List Update) (s s' : SharedData) (p p' : Place) (t t' : Totals)
    → Move s p us s' p'
    → Lock h s t
    → Loaded h s p
    → Counts p t
    → t.between ≤ t.owning
    → Changed p p' t t'
    → Lock (us ++ h) s' t'
Move-Lock h us s s' p p' t t' (read_lock e) l f k b c = record {
  readers = omega (arith, l.readers, c.sharing);
  writers = omega (arith, l.writers, c.owning);
  exclusive = λ w. absurd (cc);
  current = λ z. l.current (omega (arith, c.between, z));
}
Move-Lock h us s s' p p' t t' load_data l f k b c = record {
  readers = omega (arith, l.readers, c.sharing);
  writers = omega (arith, l.writers, c.owning);
  exclusive = l.exclusive;
  current = λ z. l.current (omega (arith, c.between, z));
}
Move-Lock h us s s' p p' t t' load_time l f k b c = record {
  readers = omega (arith, l.readers, c.sharing);
  writers = omega (arith, l.writers, c.owning);
  exclusive = l.exclusive;
  current = λ z. l.current (omega (arith, c.between, z));
}
Move-Lock h us s s' p p' t t' read_unlock l f k b c = record {
  readers = omega (arith, l.readers, c.sharing);
  writers = omega (arith, l.writers, c.owning);
  exclusive = λ w. let e = l.exclusive w in omega (arith, e);
  current = λ z. l.current (omega (arith, c.between, z));
}
Move-Lock h us s s' p p' t t' finished l f k b c = record {
  readers = omega (arith, l.readers, c.sharing);
  writers = omega (arith, l.writers, c.owning);
  exclusive = l.exclusive;
  current = λ z. l.current (omega (arith, c.between, z));
}
Move-Lock h us s s' p p' t t' (write_lock v free none) l f k b c = record {
  readers = omega (arith, l.readers, c.sharing);
  writers = let off : bit s.written ≡ 0 = ap bit free in omega (arith, l.writers, c.owning, off);
  exclusive = λ w. none;
  current = λ z. l.current (omega (arith, c.between, z));
}
Move-Lock h us s s' p p' t t' store_data l f k b c = record {
  readers = omega (arith, l.readers, c.sharing);
  writers = omega (arith, l.writers, c.owning);
  exclusive = l.exclusive;
  current = λ z. absurd (omega (arith, c.between, z));
}
Move-Lock h us s s' p p' t t' (store_time {v = v} jiffies) l f k b c = record {
  readers = omega (arith, l.readers, c.sharing);
  writers = omega (arith, l.writers, c.owning);
  exclusive = l.exclusive;
  current = λ z. rw (← f) mem-cons_self;
}
Move-Lock h us s s' p p' t t' write_unlock l f k b c = record {
  readers = omega (arith, l.readers, c.sharing);
  writers =
      let on : bit s.written ≤ 1 = bit_le s.written in
      omega (arith, l.writers, c.owning, k.owned, on);
  exclusive = λ w. absurd (cc);
  current = λ z. l.current (omega (arith, c.between, z));
}
