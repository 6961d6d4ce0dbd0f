-- ===== src/Deferred/Exit.antt =====
-- When an order of exit calls leaves nothing behind: a check of the order, and that it is sound in
-- every interleaving with the callbacks and the users.
use kernel_programming.Base.{
  ℕ, ◌+◌, ◌%◌, ◌^◌, ◌≡◌, refl, sym, subst, inl, inr, Bool-cases, List, [], ◌∷◌, Bool, true, false,
  not, ◌&&◌, ◌||◌, arith,
}
use kernel_programming.Deferred.{
  Item, timer, hrtimer, tasklet, hi_tasklet, work, delayed_work, same, among, all_items, Teardown,
  kill, remove_file, remove_created, Module, State, Step, run, write, exit_call, init, Reach, start,
  later,
}

all_items_lem : (p : Item → Bool) → all_items p ≡ true → (i : Item) → p i ≡ true
all_items_lem p h timer = ground arith
all_items_lem p h hrtimer = ground arith
all_items_lem p h tasklet = ground arith
all_items_lem p h hi_tasklet = ground arith
all_items_lem p h work = ground arith
all_items_lem p h delayed_work = ground arith

pub same-eq : (i j : Item) → same i j ≡ true → i ≡ j
same-eq timer timer h = refl
same-eq hrtimer hrtimer h = refl
same-eq tasklet tasklet h = refl
same-eq hi_tasklet hi_tasklet h = refl
same-eq work work h = refl
same-eq delayed_work delayed_work h = refl
same-eq i j h = absurd (cc)

left : (a b : Bool) → (a && b) ≡ true → a ≡ true
left a b h = ground arith

right : (a b : Bool) → (a && b) ≡ true → b ≡ true
right a b h = ground arith

imply : (a b : Bool) → (not a || b) ≡ true → a ≡ true → b ≡ true
imply a b h d = ground arith

false_of_negation : (a : Bool) → not a ≡ true → a ≡ false
false_of_negation a h = ground arith

-- All that an item's callback may schedule, at any of its runs.
pub record Targets (m : Module) : Type 0 where
  pub targets : Item → List Item
  pub within : (i j : Item) (n : ℕ) → among j (m.fire i n) ≡ true → among j (targets i) ≡ true

module _ (m : Module) (t : Targets m) where
  abbrev pub scheduled_by_dead : (dead : Item → Bool) → Item → Bool
  scheduled_by_dead dead i = all_items (λ j. not (among i (t.targets j)) || dead j)

  abbrev pub sealed : (dead : Item → Bool) (removed : Bool) → Item → Bool
  sealed dead removed i =
      not (dead i) || (scheduled_by_dead dead i && (not (among i m.writable) || removed))

  -- No item outside of `dead` schedules one inside, and no user does unless the file is removed.
  abbrev pub closed : (dead : Item → Bool) (removed : Bool) → Bool
  closed dead removed = all_items (sealed dead removed)

  -- Each exit call leaves a closed set of dead items, and the last one all of them.
  abbrev pub orderly : (dead : Item → Bool) (removed : Bool) → List Teardown → Bool
  orderly dead removed [] = all_items dead && removed
  orderly dead removed (kill i ∷ rest) =
      let dead' : Item → Bool = λ j. same j i || dead j in
      let more : Bool = orderly dead' removed rest in closed dead' removed && more
  orderly dead removed (remove_file ∷ rest) =
      let more : Bool = orderly dead true rest in closed dead true && more
  orderly dead removed (remove_created ∷ rest) =
      let more : Bool = orderly dead removed rest in closed dead removed && more

  abbrev pub not_started : (unused : Item → Bool) → Item → Bool
  not_started unused i = not (unused i) || not (among i m.started)

  -- `unused` are the items that the module does not have.
  abbrev pub ordered : (unused : Item → Bool) → Bool
  ordered unused =
      all_items (not_started unused)
      && (closed unused (not m.has_file) && orderly unused (not m.has_file) m.exit)

  record Inv (s : State) : Type 0 where
    dead : Item → Bool
    removed : Bool
    quiet : (i : Item) → dead i ≡ true → s.pending i ≡ false
    gone : removed ≡ true → s.file ≡ false
    is_closed : closed dead removed ≡ true
    is_orderly : orderly dead removed s.todo ≡ true

  closed-source :
      (dead : Item → Bool) (removed : Bool) (i j : Item)
      → closed dead removed ≡ true
      → dead i ≡ true
      → among i (t.targets j) ≡ true
      → dead j ≡ true
  closed-source dead removed i j h d to =
      let here = imply (dead i) _ (all_items_lem (sealed dead removed) h i) d in
      let source = all_items_lem (λ j. not (among i (t.targets j)) || dead j) (left _ _ here) j in
      imply (among i (t.targets j)) (dead j) source to

  closed-users :
      (dead : Item → Bool) (removed : Bool) (i : Item)
      → closed dead removed ≡ true
      → dead i ≡ true
      → among i m.writable ≡ true
      → removed ≡ true
  closed-users dead removed i h d w =
      let here = imply (dead i) _ (all_items_lem (sealed dead removed) h i) d in
      imply (among i m.writable) removed (right (scheduled_by_dead dead i) _ here) w

  orderly_todo :
      (s : State) (todo : List Teardown)
      → s.todo ≡ todo
      → (v : Inv s) → orderly v.dead v.removed todo ≡ true
  orderly_todo s todo e v = subst (λ l. orderly v.dead v.removed l ≡ true) e v.is_orderly

  Step-Inv : (s s' : State) → Step m s s' → Inv s → Inv s'
  Step-Inv s s' (run i p) v = record {
    dead = v.dead;
    removed = v.removed;
    quiet = λ k d. elim (Bool-cases (among k (m.fire i ((s.counts i + 1) % 2 ^ 32)))) [
      | inl to ↦
          let source : v.dead i ≡ true =
            closed-source v.dead v.removed k i v.is_closed d (t.within i k _ to) in
          let idle = v.quiet i source in absurd (cc)
      | inr not_to ↦ let idle = v.quiet k d in ground arith
    ];
    gone = v.gone;
    is_closed = v.is_closed;
    is_orderly = v.is_orderly;
  }
  Step-Inv s s' (write i there w) v = record {
    dead = v.dead;
    removed = v.removed;
    quiet = λ k d. elim (Bool-cases (same k i)) [
      | inl e ↦
          let one : k ≡ i = same-eq k i e in
          let removed : v.removed ≡ true =
            closed-users v.dead v.removed k v.is_closed d
              (subst (λ j. among j m.writable ≡ true) (sym one) w) in
          let no_file = v.gone removed in absurd (cc)
      | inr e ↦ let idle = v.quiet k d in ground arith
    ];
    gone = v.gone;
    is_closed = v.is_closed;
    is_orderly = v.is_orderly;
  }
  Step-Inv s s' (exit_call (kill i) rest e) v = record {
    dead = λ j. same j i || v.dead j;
    removed = v.removed;
    quiet = λ k d. elim (Bool-cases (same k i)) [
      | inl e ↦ rw e refl
      | inr e ↦ let idle = v.quiet k (rw e at d) in ground arith
    ];
    gone = v.gone;
    is_closed = left _ _ (orderly_todo s _ e v);
    is_orderly = right _ _ (orderly_todo s _ e v);
  }
  Step-Inv s s' (exit_call remove_file rest e) v = record {
    dead = v.dead;
    removed = true;
    quiet = v.quiet;
    gone = λ r. refl;
    is_closed = left _ _ (orderly_todo s _ e v);
    is_orderly = right _ _ (orderly_todo s _ e v);
  }
  Step-Inv s s' (exit_call remove_created rest e) v = record {
    dead = v.dead;
    removed = v.removed;
    quiet = v.quiet;
    gone = λ r. rw (v.gone r) refl;
    is_closed = left _ _ (orderly_todo s _ e v);
    is_orderly = right _ _ (orderly_todo s _ e v);
  }

  init-Inv : (unused : Item → Bool) → ordered unused ≡ true → Inv (init m)
  init-Inv unused h = record {
    dead = unused;
    removed = not m.has_file;
    quiet = λ i d.
        let fresh =
          all_items_lem (not_started unused) (left (all_items (not_started unused)) _ h) i in
        false_of_negation (among i m.started) (imply (unused i) _ fresh d);
    gone = λ r. ground arith;
    is_closed =
        left (closed unused (not m.has_file)) _ (right (all_items (not_started unused)) _ h);
    is_orderly =
        right (closed unused (not m.has_file)) _ (right (all_items (not_started unused)) _ h);
  }

  Reach-Inv : (unused : Item → Bool) (s : State) → ordered unused ≡ true → Reach m s → Inv s
  Reach-Inv unused s h start = init-Inv unused h
  Reach-Inv unused s h (later {s = s0} reach st) = Step-Inv s0 s st (Reach-Inv unused s0 h reach)

  -- Where the order is checked, nothing is left when the exit function has made its calls: no item
  -- is pending, and the file is gone.
  pub Reach-quiet :
      (unused : Item → Bool) (s : State)
      → ordered unused ≡ true
      → Reach m s
      → s.todo ≡ []
      → ((i : Item) → s.pending i ≡ false) × (s.file ≡ false)
  Reach-quiet unused s h reach done =
      let v = Reach-Inv unused s h reach in
      let last = orderly_todo s [] done v in
      let all = all_items_lem v.dead (left _ _ last) in
      ((λ i. v.quiet i (all i)), v.gone (right _ _ last))
