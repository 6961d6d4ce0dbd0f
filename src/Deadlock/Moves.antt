-- ===== src/Deadlock/Moves.antt =====
-- What holds of every process of the deadlock demo, and that a move keeps it: for the process that
-- moves and for each of the others.
use kernel_programming.Base.{
  ℕ, ◌+◌, ◌≡◌, ◌≢◌, refl, Bool, true, false, some, ◌==◌, arith, ◌≤◌, inl, inr, Bool-cases, ==_self,
}
use kernel_programming.Deadlock.{
  Mutexes, Pc, trying, got_first, giving_up, sleeping, working, leaving, Move, read, try_first,
  first_busy, ebusy, try_second, second_busy, unlock_first, awake, release_second, release_first,
  max_retries, System, Step, step, Reach, start, later,
}

abbrev pub holds_first : Pc → Bool
holds_first (got_first _) = true
holds_first (giving_up _) = true
holds_first working = true
holds_first leaving = true
holds_first _ = false

abbrev pub holds_second : Pc → Bool
holds_second working = true
holds_second _ = false

abbrev pub retries_of : Pc → ℕ
retries_of (trying r) = r
retries_of (got_first r) = r + 1
retries_of (giving_up r) = r + 1
retries_of (sleeping r) = r + 1
retries_of _ = 0

pub record Local (i : ℕ) (p : Pc) (m : Mutexes) : Type 0 where
  pub first : holds_first p ≡ true → m.resource_a ≡ some i
  pub second : holds_second p ≡ true → m.resource_b ≡ some i
  pub second_only : m.resource_b ≡ some i → holds_second p ≡ true
  pub few : retries_of p ≤ max_retries

mover : (k : ℕ) (m m' : Mutexes) (p p' : Pc) → Move k m p m' p' → Local k p m → Local k p' m'
mover k m m' p p' read l = record {
  first = λ h. absurd (cc);
  second = λ h. absurd (cc);
  second_only = λ h. l.second_only h;
  few = omega arith;
}
mover k m m' p p' (try_first lt free) l = record {
  first = λ h. refl;
  second = λ h. absurd (cc);
  second_only = λ h. l.second_only h;
  few = omega arith;
}
mover k m m' p p' (first_busy lt held) l = record {
  first = λ h. absurd (cc);
  second = λ h. absurd (cc);
  second_only = λ h. l.second_only h;
  few = omega arith;
}
mover k m m' p p' (ebusy ge) l = record {
  first = λ h. absurd (cc);
  second = λ h. absurd (cc);
  second_only = λ h. l.second_only h;
  few = omega arith;
}
mover k m m' p p' (try_second free) l = record {
  first = λ h. l.first refl;
  second = λ h. refl;
  second_only = λ h. refl;
  few = omega arith;
}
mover k m m' p p' (second_busy held) l = record {
  first = λ h. l.first refl;
  second = λ h. absurd (cc);
  second_only = λ h. l.second_only h;
  few = l.few;
}
mover k m m' p p' unlock_first l = record {
  first = λ h. absurd (cc);
  second = λ h. absurd (cc);
  second_only = λ h. l.second_only h;
  few = l.few;
}
mover k m m' p p' awake l = record {
  first = λ h. absurd (cc);
  second = λ h. absurd (cc);
  second_only = λ h. l.second_only h;
  few = l.few;
}
mover k m m' p p' release_second l = record {
  first = λ h. l.first refl;
  second = λ h. absurd (cc);
  second_only = λ h. absurd (cc);
  few = omega arith;
}
mover k m m' p p' release_first l = record {
  first = λ h. absurd (cc);
  second = λ h. absurd (cc);
  second_only = λ h. l.second_only h;
  few = omega arith;
}

-- Another process holds what it held.
frame :
    (k i : ℕ) (m m' : Mutexes) (p p' q : Pc)
    → i ≢ k
    → Move k m p m' p'
    → Local k p m
    → Local i q m
    → Local i q m'
frame k i m m' p p' q other read l o = o
frame k i m m' p p' q other (try_first lt free) l o = record {
  first = λ h. absurd (let held = o.first h in cc);
  second = o.second;
  second_only = o.second_only;
  few = o.few;
}
frame k i m m' p p' q other (first_busy lt held) l o = o
frame k i m m' p p' q other (ebusy ge) l o = o
frame k i m m' p p' q other (try_second free) l o = record {
  first = o.first;
  second = λ h. absurd (let held = o.second h in cc);
  second_only = λ h. absurd (other (ground arith));
  few = o.few;
}
frame k i m m' p p' q other (second_busy held) l o = o
frame k i m m' p p' q other unlock_first l o = record {
  first = λ h. absurd (other (let mine = l.first refl in let theirs = o.first h in ground arith));
  second = o.second;
  second_only = o.second_only;
  few = o.few;
}
frame k i m m' p p' q other awake l o = o
frame k i m m' p p' q other release_second l o = record {
  first = o.first;
  second =
      λ h. absurd (other (let mine = l.second refl in let theirs = o.second h in ground arith));
  second_only = λ h. absurd (cc);
  few = o.few;
}
frame k i m m' p p' q other release_first l o = record {
  first = λ h. absurd (other (let mine = l.first refl in let theirs = o.first h in ground arith));
  second = o.second;
  second_only = o.second_only;
  few = o.few;
}

abbrev pub Inv : System → Type 0
Inv s = (i : ℕ) → Local i (s.pc i) s.mutexes

Step-Inv : (s t : System) → Step s t → Inv s → Inv t
Step-Inv s t (step k {m} {p} mv) inv i = elim (Bool-cases (i == k)) [
  | inl e ↦
      let same : i ≡ k = ground arith in
      rw same (rw (==_self k) (mover k s.mutexes m (s.pc k) p mv (inv k)))
  | inr e ↦ rw e (frame k i s.mutexes m (s.pc k) p (s.pc i) (ground arith) mv (inv k) (inv i))
]

pub Reach-Inv : (s : System) → Reach s → Inv s
Reach-Inv s start i = record {
  first = λ h. absurd (cc);
  second = λ h. absurd (cc);
  second_only = λ h. absurd (cc);
  few = omega arith;
}
Reach-Inv t (later {s} r st) i = Step-Inv s t st (Reach-Inv s r) i
