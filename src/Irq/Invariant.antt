-- ===== src/Irq/Invariant.antt =====
-- What holds of the threaded interrupt demo between two steps, in any interleaving.
use kernel_programming.Base.{
  ℕ, suc, ◌+◌, ◌^◌, ◌≤◌, ◌<◌, ◌≡◌, refl, ap, inl, inr, ◌⊎◌, Bool, true, false, Bool-cases, ◌==◌,
  arith,
}
use kernel_programming.Kernel.Family.{update, total, total-update, total-zero, two-le-total}
use kernel_programming.Irq.{
  IrqState, primary_only, full, hardware, Place, idle, entered, counted, loaded, thread,
  thread_counted, locked, thread_loaded, stored, Move, trigger, count_primary, load_irq_counter,
  store_irq_counter, run_thread, count_thread, lock, load_shared_counter, store_shared_counter,
  unlock, System, Step, step, Reach, start, later,
}

-- Counted as primary, and not yet in `irq_counter`.
abbrev pub in_primary : Place → ℕ
in_primary (counted _) = 1
in_primary (loaded _ _) = 1
in_primary _ = 0

-- Called as thread handler, and not yet counted.
abbrev pub to_count : Place → ℕ
to_count thread = 1
to_count _ = 0

-- Counted as thread handler, and not yet in `shared_counter`.
abbrev pub in_thread : Place → ℕ
in_thread thread_counted = 1
in_thread locked = 1
in_thread (thread_loaded _) = 1
in_thread _ = 0

abbrev pub holding : Place → ℕ
holding locked = 1
holding (thread_loaded _) = 1
holding stored = 1
holding _ = 0

abbrev pub bit : Bool → ℕ
bit true = 1
bit false = 0

pub bit_le : (b : Bool) → bit b ≤ 1
bit_le true = omega arith
bit_le false = omega arith

-- What a value that was loaded, and is not stored yet, is against the counters.
abbrev pub Fits : (s : IrqState) (busy : ℕ) → Place → Type 0
Fits s busy (loaded o n) = n + busy ≤ s.primary_handler_count
Fits s busy (thread_loaded n) = n ≡ s.shared_counter
Fits s busy _ = Unit {0}

-- How many executions stand at the places of each kind.
pub record Totals : Type 0 where
  pub busy : ℕ
  pub waiting : ℕ
  pub running : ℕ
  pub held : ℕ

abbrev pub totals : (n : ℕ) → (ℕ → Place) → Totals
totals n place = record {
  busy = total in_primary n place;
  waiting = total to_count n place;
  running = total in_thread n place;
  held = total holding n place;
}

-- The counters against the places.
pub record Sums (k : ℕ) (s : IrqState) (t : Totals) : Type 0 where
  pub few : s.primary_handler_count ≤ k
  pub irq : s.irq_counter + t.busy ≤ s.primary_handler_count
  pub threads :
      s.thread_handler_count + t.waiting + bit s.wake_thread + t.busy ≤ s.primary_handler_count
  pub shared : s.thread_handler_count ≡ s.shared_counter + t.running
  pub mutex : t.held ≡ bit s.shared_data_mutex

pub record Inv (n k : ℕ) (s : System) : Type 0 where
  pub sums : Sums k s.shared (totals n s.place)
  pub fits : (i : ℕ) → i < n → Fits s.shared (total in_primary n s.place) (s.place i)

-- The totals change by what the mover's places count for.
record Changed (p p' : Place) (t t' : Totals) : Type 0 where
  busy : t'.busy + in_primary p ≡ t.busy + in_primary p'
  waiting : t'.waiting + to_count p ≡ t.waiting + to_count p'
  running : t'.running + in_thread p ≡ t.running + in_thread p'
  held : t'.held + holding p ≡ t.held + holding p'

Move-Sums :
    (k : ℕ) (s s' : IrqState) (p p' : Place) (t t' : Totals)
    → Move s p s' p'
    → k < 2 ^ 31
    → Sums k s t
    → Fits s t.busy p
    → Changed p p' t t'
    → Sums (suc k) s' t'
Move-Sums k s s' p p' t t' (trigger o) h v f c = omega arith
Move-Sums k s s' p p' t t' count_primary h v f c = omega arith
Move-Sums k s s' p p' t t' load_irq_counter h v f c = omega arith
Move-Sums k s s' p p' t t' (store_irq_counter {o = primary_only} {n = m}) h v f c = omega arith
Move-Sums k s s' p p' t t' (store_irq_counter {o = full} {n = m}) h v f c = omega arith
Move-Sums k s s' p p' t t' (store_irq_counter {o = hardware} {n = m}) h v f c =
    let old : bit s.wake_thread ≤ 1 = bit_le s.wake_thread in omega arith
Move-Sums k s s' p p' t t' (run_thread e) h v f c =
    let set : bit s.wake_thread ≡ 1 = ap bit e in omega arith
Move-Sums k s s' p p' t t' count_thread h v f c = omega arith
Move-Sums k s s' p p' t t' (lock e) h v f c =
    let free : bit s.shared_data_mutex ≡ 0 = ap bit e in omega arith
Move-Sums k s s' p p' t t' load_shared_counter h v f c = omega arith
Move-Sums k s s' p p' t t' store_shared_counter h v f c = omega arith
Move-Sums k s s' p p' t t' unlock h v f c =
    let old : bit s.shared_data_mutex ≤ 1 = bit_le s.shared_data_mutex in omega arith

-- The value that the mover has loaded, and the values of the others.
mover-Fits :
    (k : ℕ) (s s' : IrqState) (p p' : Place) (t t' : Totals)
    → Move s p s' p'
    → Sums k s t
    → Changed p p' t t'
    → Fits s' t'.busy p'
mover-Fits k s s' p p' t t' (trigger o) h c = tt
mover-Fits k s s' p p' t t' count_primary h c = tt
mover-Fits k s s' p p' t t' load_irq_counter h c = omega arith
mover-Fits k s s' p p' t t' (store_irq_counter {o = primary_only} {n = m}) h c = tt
mover-Fits k s s' p p' t t' (store_irq_counter {o = full} {n = m}) h c = tt
mover-Fits k s s' p p' t t' (store_irq_counter {o = hardware} {n = m}) h c = tt
mover-Fits k s s' p p' t t' (run_thread e) h c = tt
mover-Fits k s s' p p' t t' count_thread h c = tt
mover-Fits k s s' p p' t t' (lock e) h c = tt
mover-Fits k s s' p p' t t' load_shared_counter h c = refl
mover-Fits k s s' p p' t t' store_shared_counter h c = tt
mover-Fits k s s' p p' t t' unlock h c = tt

-- The counter of the thread handler changes only under the mutex, which the mover then holds.
frame-shared :
    (s s' : IrqState) (p p' : Place)
    → Move s p s' p'
    → (holding p ≡ 1) ⊎ (s'.shared_counter ≡ s.shared_counter)
frame-shared s s' p p' store_shared_counter = inl refl
frame-shared s s' p p' (trigger o) = inr refl
frame-shared s s' p p' count_primary = inr refl
frame-shared s s' p p' load_irq_counter = inr refl
frame-shared s s' p p' store_irq_counter = inr refl
frame-shared s s' p p' (run_thread e) = inr refl
frame-shared s s' p p' count_thread = inr refl
frame-shared s s' p p' (lock e) = inr refl
frame-shared s s' p p' load_shared_counter = inr refl
frame-shared s s' p p' unlock = inr refl

-- Primary handlers that are counted and those that are not stored grow together.
frame-primary :
    (k : ℕ) (s s' : IrqState) (p p' : Place) (t t' : Totals)
    → Move s p s' p'
    → k < 2 ^ 31
    → Sums k s t
    → Changed p p' t t'
    → t'.busy + s.primary_handler_count ≤ t.busy + s'.primary_handler_count
frame-primary k s s' p p' t t' (trigger o) lt h c = omega arith
frame-primary k s s' p p' t t' count_primary lt h c = omega arith
frame-primary k s s' p p' t t' load_irq_counter lt h c = omega arith
frame-primary k s s' p p' t t' (store_irq_counter {o = primary_only} {n = m}) lt h c = omega arith
frame-primary k s s' p p' t t' (store_irq_counter {o = full} {n = m}) lt h c = omega arith
frame-primary k s s' p p' t t' (store_irq_counter {o = hardware} {n = m}) lt h c = omega arith
frame-primary k s s' p p' t t' (run_thread e) lt h c = omega arith
frame-primary k s s' p p' t t' count_thread lt h c = omega arith
frame-primary k s s' p p' t t' (lock e) lt h c = omega arith
frame-primary k s s' p p' t t' load_shared_counter lt h c = omega arith
frame-primary k s s' p p' t t' store_shared_counter lt h c = omega arith
frame-primary k s s' p p' t t' unlock lt h c = omega arith

-- Another process's loaded value, where it does not hold the mutex that the mover holds.
other-Fits :
    (s s' : IrqState) (b b' : ℕ) (q : Place)
    → b' + s.primary_handler_count ≤ b + s'.primary_handler_count
    → (holding q ≡ 0) ⊎ (s'.shared_counter ≡ s.shared_counter)
    → Fits s b q
    → Fits s' b' q
other-Fits s s' b b' (loaded o m) grow same f = omega arith
other-Fits s s' b b' (thread_loaded m) grow (inl free) f = absurd (omega arith)
other-Fits s s' b b' (thread_loaded m) grow (inr same) f = omega (arith, same)
other-Fits s s' b b' idle grow same f = tt
other-Fits s s' b b' (entered o) grow same f = tt
other-Fits s s' b b' (counted o) grow same f = tt
other-Fits s s' b b' thread grow same f = tt
other-Fits s s' b b' thread_counted grow same f = tt
other-Fits s s' b b' locked grow same f = tt
other-Fits s s' b b' stored grow same f = tt

Step-Inv : (n k : ℕ) (s t : System) → Step n s t → k < 2 ^ 31 → Inv n k s → Inv n (suc k) t
Step-Inv n k s t (step i {t = r} {p} lt mv) few inv =
    let place' : ℕ → Place = update s.place i p in
    let c : Changed (s.place i) p (totals n s.place) (totals n place') = record {
      busy = total-update in_primary n s.place i p lt;
      waiting = total-update to_count n s.place i p lt;
      running = total-update in_thread n s.place i p lt;
      held = total-update holding n s.place i p lt;
    } in
    let mine =
      mover-Fits k s.shared r (s.place i) p (totals n s.place) (totals n place') mv inv.sums c in
    let grow =
      frame-primary k s.shared r (s.place i) p (totals n s.place) (totals n place') mv few inv.sums
        c in
    let one : total holding n s.place ≤ 1 =
      omega (arith, inv.sums.mutex, bit_le s.shared.shared_data_mutex) in
    record {
      sums =
          Move-Sums k s.shared r (s.place i) p (totals n s.place) (totals n place') mv few inv.sums
            (inv.fits i lt) c;
      fits = λ j hj. elim (Bool-cases (j == i)) [
        | inl e ↦ rw e mine
        | inr e ↦
            let old = inv.fits j hj in
            let unlocked : (holding (s.place j) ≡ 0)
                ⊎ (r.shared_counter ≡ s.shared.shared_counter) =
              elim (frame-shared s.shared r (s.place i) p mv) [
                | inl mine ↦
                    let both = two-le-total holding idle n s.place i j refl lt hj e in
                    inl (omega (arith, both, one, mine))
                | inr same ↦ inr same
              ] in
            rw e (other-Fits s.shared r _ _ (s.place j) grow unlocked old)
      ];
    }

pub Reach-Inv : (n k : ℕ) (s : System) → Reach n k s → k < 2 ^ 31 → Inv n k s
Reach-Inv n k s start few =
    let busy = total-zero in_primary n idle refl in
    let waiting = total-zero to_count n idle refl in
    let running = total-zero in_thread n idle refl in
    let held = total-zero holding n idle refl in
    record {
      sums = record {
        few = omega arith;
        irq = omega (arith, busy);
        threads = omega (arith, busy, waiting);
        shared = omega (arith, running);
        mutex = held;
      };
      fits = λ i h. tt;
    }
Reach-Inv n (suc k) t (later {s} reach st) few =
    Step-Inv n k s t st (omega arith) (Reach-Inv n k s reach (omega arith))
