-- ===== src/Deferred/Timers.antt =====
-- The two timer demos: how often the basic timer fires, and the file that the other one leaves.
use kernel_programming.Base.{
  ℕ, ◌+◌, ◌%◌, ◌^◌, ◌≤◌, ◌<◌, ◌≡◌, refl, sym, ◌∙◌, subst, inl, inr, ◌⊎◌, Bool-cases, List, [], ◌∷◌,
  ltb, leb, ◌||◌, Bool, true, false, if◌then◌else◌, arith,
}
use kernel_programming.Deferred.{
  Item, timer, hrtimer, tasklet, hi_tasklet, work, delayed_work, same, among, Teardown, kill,
  remove_file, remove_created, State, run_item, scheduled, cleared, torn_down, Step, run, write,
  exit_call, Reach, start, later,
}
use kernel_programming.Deferred.Demos.{basic_timer, basic_fire, simple_timer, simple_timer_fire}
use kernel_programming.Deferred.Exit.{same-eq}

-- No exit, or the exit that has been made.
abbrev Waiting : State → Type 0
Waiting s =
    ((s.todo ≡ basic_timer.exit) × (s.pending timer ≡ ltb (s.counts timer) 5))
    ⊎ ((s.todo ≡ []) × (s.pending timer ≡ false))

record Inv (s : State) : Type 0 where
  few : s.counts timer ≤ 5
  waiting : Waiting s
  only : (i : Item) → s.pending i ≡ true → i ≡ timer

below : (s : State) → Inv s → s.pending timer ≡ true → s.counts timer < 5
below s v p = elim v.waiting [ inl (_, e) ↦ ground arith | inr (_, e) ↦ absurd (cc) ]

not_done : (s : State) → Waiting s → s.pending timer ≡ true → s.todo ≡ basic_timer.exit
not_done s w p = elim w [ inl (e, _) ↦ e | inr (_, e) ↦ absurd (cc) ]

-- What its callback leaves of the timer.
again :
    (n : ℕ)
    → n ≤ 5
    → (p : Bool) → scheduled (basic_fire timer n) (cleared timer (λ j. p)) timer ≡ ltb n 5
again n h p =
    let big : leb (2 ^ 31) n ≡ false = ground arith in
    elim (Bool-cases (ltb n 5)) [ inl e ↦ rw e refl | inr e ↦ rw (e, big) refl ]

only_timer :
    (b : Bool) (q : Item → Bool) (i : Item)
    → scheduled (if b then timer ∷ [] else []) (cleared timer q) i ≡ true
    → (i ≡ timer) ⊎ (q i ≡ true)
only_timer b q timer h = inl refl
only_timer true q i h = inr h
only_timer false q i h = inr h

stopped :
    (s : State) (c : Teardown) (rest : List Teardown)
    → Inv s
    → s.todo ≡ c ∷ rest
    → Inv (torn_down c rest s)
stopped s c rest v e = elim v.waiting [
  | inl (t, _) ↦
      let h : c ∷ rest ≡ kill timer ∷ [] = sym e ∙ t in
      let first : c ≡ kill timer = cc in
      let last : rest ≡ [] = cc in
      rw (first, last)
        (record {
          few = v.few;
          waiting = inr (refl, refl);
          only = λ i p. elim (only_timer false s.pending i p) [ inl e ↦ e | inr q ↦ v.only i q ];
        })
  | inr (t, _) ↦ absurd (let h : c ∷ rest ≡ [] = sym e ∙ t in cc)
]

fired : (s : State) → Inv s → s.pending timer ≡ true → Inv (run_item basic_timer timer s)
fired s v p =
    let few = below s v p in
    let n : ℕ = (s.counts timer + 1) % 2 ^ 32 in
    record {
      few = omega (arith, few);
      waiting = inl (not_done s v.waiting p, again n (omega (arith, few)) (s.pending timer));
      only = λ i h. elim (only_timer (ltb n 5 || leb (2 ^ 31) n) s.pending i h) [
        | inl e ↦ e
        | inr q ↦ v.only i q
      ];
    }

Step-Inv : (s t : State) → Step basic_timer s t → Inv s → Inv t
Step-Inv s t (run i p) v =
    let e : i ≡ timer = v.only i p in
    subst (λ j. Inv (run_item basic_timer j s)) (sym e)
      (fired s v (subst (λ j. s.pending j ≡ true) e p))
Step-Inv s t (write i there w) v = absurd (cc)
Step-Inv s t (exit_call c rest e) v = stopped s c rest v e

started : (i : Item) → among i (timer ∷ []) ≡ true → i ≡ timer
started timer h = refl
started i h = absurd (cc)

Reach-Inv : (s : State) → Reach basic_timer s → Inv s
Reach-Inv s start = record { few = omega arith; waiting = inl (refl, refl); only = started }
Reach-Inv t (later {s = s} r st) = Step-Inv s t st (Reach-Inv s r)

-- As long as the exit function of the basic timer has not started, the timer is pending exactly
-- where its count is below 5, and the count is never above 5: it stops by itself after five runs.
pub basic_timer-five :
    (s : State)
    → Reach basic_timer s
    → s.todo ≡ basic_timer.exit
    → (s.counts timer ≤ 5) × (s.pending timer ≡ ltb (s.counts timer) 5)
basic_timer-five s r e =
    let v = Reach-Inv s r in
    elim v.waiting [
      | inl (_, p) ↦ (v.few, p)
      | inr (t, _) ↦ absurd (let h : kill timer ∷ [] ≡ [] = sym e ∙ t in cc)
    ]

-- An exit function that calls proc_remove for no entry of the initialisation.
abbrev keeps_file : List Teardown → Bool
keeps_file [] = true
keeps_file (kill i ∷ rest) = let more : Bool = keeps_file rest in more
keeps_file (remove_file ∷ rest) = false
keeps_file (remove_created ∷ rest) = let more : Bool = keeps_file rest in more

-- A call that kills the item is still to be made.
abbrev kills : Item → List Teardown → Bool
kills k [] = false
kills k (kill i ∷ rest) = let more : Bool = kills k rest in same k i || more
kills k (remove_file ∷ rest) = let more : Bool = kills k rest in more
kills k (remove_created ∷ rest) = let more : Bool = kills k rest in more

record Kept (s : State) : Type 0 where
  file : s.file ≡ true
  left : keeps_file s.todo ≡ true
  armed : (k : Item) → s.pending k ≡ true → kills k s.todo ≡ true

call-Kept :
    (s : State) (c : Teardown) (rest : List Teardown)
    → Kept s
    → keeps_file (c ∷ rest) ≡ true
    → ((k : Item) → s.pending k ≡ true → kills k (c ∷ rest) ≡ true)
    → Kept (torn_down c rest s)
call-Kept s (kill i) rest v h armed = record {
  file = v.file;
  left = h;
  armed = λ k p. elim (Bool-cases (same k i)) [
    | inl e ↦ absurd (ground arith)
    | inr e ↦
        let pending : s.pending k ≡ true = ground arith in
        let later = armed k pending in ground arith
  ];
}
call-Kept s remove_file rest v h armed = absurd (cc)
call-Kept s remove_created rest v h armed = record {
  file = rw v.file refl;
  left = h;
  armed = armed;
}

-- A callback of this module schedules its own timer, if any.
own_timer : (i k : Item) (n : ℕ) → among k (simple_timer_fire i n) ≡ true → k ≡ i
own_timer timer k n h = same-eq k timer (ground arith)
own_timer hrtimer k n h = same-eq k hrtimer (ground arith)
own_timer tasklet k n h = absurd (cc)
own_timer hi_tasklet k n h = absurd (cc)
own_timer work k n h = absurd (cc)
own_timer delayed_work k n h = absurd (cc)

run-armed :
    (s : State) (i k : Item)
    → Kept s
    → s.pending i ≡ true
    → (run_item simple_timer i s).pending k ≡ true
    → kills k s.todo ≡ true
run-armed s i k v p h =
    elim (Bool-cases (among k (simple_timer_fire i ((s.counts i + 1) % 2 ^ 32)))) [
      | inl to ↦ subst (λ j. kills j s.todo ≡ true) (sym (own_timer i k _ to)) (v.armed i p)
      | inr other ↦ let pending : s.pending k ≡ true = ground arith in v.armed k pending
    ]

start-armed : (k : Item) → among k simple_timer.started ≡ true → kills k simple_timer.exit ≡ true
start-armed k h = ground arith

Reach-Kept : (s : State) → Reach simple_timer s → Kept s
Reach-Kept s start = record { file = refl; left = refl; armed = start-armed }
Reach-Kept t (later {s = s} r (run i p)) =
    let v = Reach-Kept s r in
    record { file = v.file; left = v.left; armed = λ k h. run-armed s i k v p h }
Reach-Kept t (later {s = s} r (write i there w)) = absurd (cc)
Reach-Kept t (later {s = s} r (exit_call c rest e)) =
    let v = Reach-Kept s r in
    call-Kept s c rest v (subst (λ l. keeps_file l ≡ true) e v.left)
      (subst (λ l. (k : Item) → s.pending k ≡ true → kills k l ≡ true) e v.armed)

not_pending : (b : Bool) → (b ≡ true → false ≡ true) → b ≡ false
not_pending true h = absurd (let e = h refl in cc)
not_pending false h = refl

-- When the exit function of the module simple_timer has made all its calls, interleaved in any way with
-- the callbacks: no item is pending, and the file is still there.
pub simple_timer-file_left :
    (s : State)
    → Reach simple_timer s
    → s.todo ≡ []
    → ((i : Item) → s.pending i ≡ false) × (s.file ≡ true)
simple_timer-file_left s r done =
    let v = Reach-Kept s r in
    let armed = subst (λ l. (k : Item) → s.pending k ≡ true → kills k l ≡ true) done v.armed in
    (λ i. not_pending (s.pending i) (armed i), v.file)
