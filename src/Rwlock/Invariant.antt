-- ===== src/Rwlock/Invariant.antt =====
-- What holds of the reader-writer demo between two steps, in any interleaving.
use kernel_programming.Base.{
  ℕ, ◌+◌, ◌≤◌, ◌<◌, ◌≡◌, refl, sym, ◌∙◌, ap, inl, inr, ◌⊎◌, false, Bool-cases, ◌==◌, List, ◌++◌,
  arith,
}
use mathlib.Core.List.{Mem, mem-cons_self, mem-append_right}
use kernel_programming.Kernel.Family.{
  update, total, total-update, total-zero, total-le, place-le-total, two-le-total,
}
use kernel_programming.Rwlock.{
  SharedData, Update, Place, outside, reading, read_data, read_both, unlocked, writing, stored_data,
  stored_both, Move, read_lock, load_data, load_time, read_unlock, finished, write_lock, store_data,
  store_time, write_unlock, System, Step, step, note_time, Reach, start, later,
}
use kernel_programming.Rwlock.Lock.{
  shares, owns, halfway, bit, bit_le, Loaded, Totals, totals, Lock, Changed, Counts, Move-Lock,
}

pub record Inv (n : ℕ) (h : List Update) (s : System) : Type 0 where
  pub lock : Lock h s.shared (totals n s.place)
  pub loaded : (i : ℕ) → i < n → Loaded h s.shared (s.place i)

mover-Loaded :
    (h us : List Update) (s s' : SharedData) (p p' : Place) (t : Totals)
    → Move s p us s' p'
    → Lock h s t
    → Loaded h s p
    → Counts p t
    → t.between ≤ t.owning
    → Loaded (us ++ h) s' p'
mover-Loaded h us s s' p p' t (read_lock e) l f k b = tt
mover-Loaded h us s s' p p' t load_data l f k b = refl
mover-Loaded h us s s' p p' t load_time l f k b =
    let on : bit s.written ≡ 0 = elim (Bool-cases s.written) [
      | inl w ↦ let e = l.exclusive w in absurd (omega (arith, e, l.readers, k.shared))
      | inr w ↦ ap bit w
    ] in
    let now : Mem (s.shared_data, s.last_update) h = l.current (omega (arith, on, l.writers, b)) in
    (f, rw f now)
mover-Loaded h us s s' p p' t read_unlock l f k b = f.1
mover-Loaded h us s s' p p' t finished l f k b = tt
mover-Loaded h us s s' p p' t (write_lock v e z) l f k b = tt
mover-Loaded h us s s' p p' t store_data l f k b = refl
mover-Loaded h us s s' p p' t (store_time jiffies) l f k b = tt
mover-Loaded h us s s' p p' t write_unlock l f k b = tt

-- Only a writer with the lock changes the value.
frame :
    (us : List Update) (s s' : SharedData) (p p' : Place)
    → Move s p us s' p'
    → (owns p ≡ 1) ⊎ (s'.shared_data ≡ s.shared_data)
frame us s s' p p' store_data = inl refl
frame us s s' p p' (store_time jiffies) = inr refl
frame us s s' p p' (read_lock e) = inr refl
frame us s s' p p' load_data = inr refl
frame us s s' p p' load_time = inr refl
frame us s s' p p' read_unlock = inr refl
frame us s s' p p' finished = inr refl
frame us s s' p p' (write_lock v e z) = inr refl
frame us s s' p p' write_unlock = inr refl

other-Loaded :
    (h us : List Update) (s s' : SharedData) (q : Place)
    → (owns q + shares q ≡ 0) ⊎ (s'.shared_data ≡ s.shared_data)
    → Loaded h s q
    → Loaded (us ++ h) s' q
other-Loaded h us s s' outside same f = tt
other-Loaded h us s s' reading same f = tt
other-Loaded h us s s' (writing v) same f = tt
other-Loaded h us s s' (stored_both v) same f = tt
other-Loaded h us s s' (unlocked d t) same f = mem-append_right us f
other-Loaded h us s s' (read_data d) (inl free) f = absurd (omega arith)
other-Loaded h us s s' (read_both d t) (inl free) f = absurd (omega arith)
other-Loaded h us s s' (stored_data v) (inl free) f = absurd (omega arith)
other-Loaded h us s s' (read_data d) (inr e) f = f ∙ sym e
other-Loaded h us s s' (read_both d t) (inr e) f = (f.0 ∙ sym e, mem-append_right us f.1)
other-Loaded h us s s' (stored_data v) (inr e) f = f ∙ sym e

halfway-le-owns : (p : Place) → halfway p ≤ owns p
halfway-le-owns (stored_data v) = omega arith
halfway-le-owns outside = omega arith
halfway-le-owns reading = omega arith
halfway-le-owns (read_data d) = omega arith
halfway-le-owns (read_both d t) = omega arith
halfway-le-owns (unlocked d t) = omega arith
halfway-le-owns (writing v) = omega arith
halfway-le-owns (stored_both v) = omega arith

-- While one process holds the lock as a writer, no other holds it.
alone :
    (n : ℕ) (h : List Update) (s : System) (i j : ℕ)
    → Lock h s.shared (totals n s.place)
    → i < n
    → j < n
    → (j == i) ≡ false
    → owns (s.place i) ≡ 1
    → owns (s.place j) + shares (s.place j) ≡ 0
alone n h s i j l hi hj other mine =
    let both = two-le-total owns outside n s.place i j refl hi hj other in
    let sharing = place-le-total shares n s.place j hj in
    let on : bit s.shared.written ≤ 1 = bit_le s.shared.written in
    elim (Bool-cases s.shared.written) [
      | inl w ↦
          let e = l.exclusive w in omega (arith, both, sharing, on, l.writers, l.readers, mine, e)
      | inr w ↦
          let off : bit s.shared.written ≡ 0 = ap bit w in
          absurd (omega (arith, both, off, l.writers, mine))
    ]

Step-Inv :
    (n : ℕ) (h us : List Update) (s t : System) → Step n s us t → Inv n h s → Inv n (us ++ h) t
Step-Inv n h us s t (step i {t = r} {p} lt mv) inv =
    let place' : ℕ → Place = update s.place i p in
    let c : Changed (s.place i) p (totals n s.place) (totals n place') = record {
      sharing = total-update shares n s.place i p lt;
      owning = total-update owns n s.place i p lt;
      between = total-update halfway n s.place i p lt;
    } in
    let k : Counts (s.place i) (totals n s.place) = record {
      shared = place-le-total shares n s.place i lt;
      owned = place-le-total owns n s.place i lt;
    } in
    let b : total halfway n s.place ≤ total owns n s.place =
      total-le halfway owns n s.place halfway-le-owns in
    let f = inv.loaded i lt in
    let T : Totals = totals n s.place in
    record {
      lock = Move-Lock h us s.shared r (s.place i) p T (totals n place') mv inv.lock f k b c;
      loaded = λ j hj. elim (Bool-cases (j == i)) [
        | inl e ↦ rw e (mover-Loaded h us s.shared r (s.place i) p T mv inv.lock f k b)
        | inr e ↦
            let free : (owns (s.place j) + shares (s.place j) ≡ 0)
                ⊎ (r.shared_data ≡ s.shared.shared_data) =
              elim (frame us s.shared r (s.place i) p mv) [
                | inl mine ↦ inl (alone n h s i j inv.lock lt hj e mine)
                | inr same ↦ inr same
              ] in
            rw e (other-Loaded h us s.shared r (s.place j) free (inv.loaded j hj))
      ];
    }
Step-Inv n h us s t (note_time jiffies e) inv = record {
  lock = record {
    readers = inv.lock.readers;
    writers = inv.lock.writers;
    exclusive = inv.lock.exclusive;
    current = λ z. mem-cons_self;
  };
  loaded = λ j hj. other-Loaded h us s.shared t.shared (s.place j) (inr refl) (inv.loaded j hj);
}

pub Reach-Inv : (n : ℕ) (h : List Update) (s : System) → Reach n h s → Inv n h s
Reach-Inv n h s start =
    let sharing = total-zero shares n outside refl in
    let owning = total-zero owns n outside refl in
    record {
      lock = record {
        readers = omega (arith, sharing);
        writers = omega (arith, owning);
        exclusive = λ w. refl;
        current = λ z. mem-cons_self;
      };
      loaded = λ i lt. tt;
    }
Reach-Inv n h t (later {h = h0} {us} {s} reach st) =
    Step-Inv n h0 us s t st (Reach-Inv n h0 s reach)
