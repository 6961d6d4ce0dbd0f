-- ===== src/Pool/Bounds.antt =====
-- The pool is never overdrawn, in any interleaving of any number of processes.
use kernel_programming.Base.{ℕ, ◌+◌, ◌-◌, ◌^◌, ◌≤◌, ◌<◌, ◌≡◌, refl, arith}
use kernel_programming.Pool.{
  Resources, Place, outside, admitted, counted, read_id, using, uncounted, Move, down, interrupted,
  count_in, load_id, store_id, count_out, up, System, Step, step, Reach, start, later, update,
  max_resources,
}
use kernel_programming.Kernel.Family.{
  update, total, total-update, total-zero, total-le, place-le-total,
}

-- Places at which a process holds one of the resources.
abbrev pub holding : Place → ℕ
holding outside = 0
holding _ = 1

-- Places at which a process is among the active users.
abbrev pub active : Place → ℕ
active counted = 1
active (read_id _) = 1
active (using _) = 1
active _ = 0

pub record Inv (n : ℕ) (s : System) : Type 0 where
  pub permits : s.shared.resource_pool + total holding n s.place ≡ max_resources
  pub users : s.shared.active_users ≡ total active n s.place
  pub fewer : total active n s.place ≤ total holding n s.place

active-le-holding : (p : Place) → active p ≤ holding p
active-le-holding outside = omega arith
active-le-holding admitted = omega arith
active-le-holding counted = omega arith
active-le-holding (read_id id) = omega arith
active-le-holding (using id) = omega arith
active-le-holding uncounted = omega arith

-- What a move does to the two counters, against the places before and after it.
abbrev Moved : (r r' : Resources) (p p' : Place) → Type 0
Moved r r' p p' =
    (r'.resource_pool + holding p' ≡ r.resource_pool + holding p)
    × (r'.active_users + active p ≡ r.active_users + active p')

Move-Moved :
    (r r' : Resources) (p p' : Place)
    → Move r p r' p'
    → r.active_users < 2 ^ 31
    → active p ≤ r.active_users
    → Moved r r' p p'
Move-Moved r r' p p' (down more) few some_active = (omega arith, omega arith)
Move-Moved r r' p p' interrupted few some_active = (refl, refl)
Move-Moved r r' p p' count_in few some_active = (refl, omega arith)
Move-Moved r r' p p' load_id few some_active = (refl, refl)
Move-Moved r r' p p' store_id few some_active = (refl, refl)
Move-Moved r r' p p' count_out few some_active = (refl, omega arith)
Move-Moved r r' p p' up few some_active = (omega arith, omega arith)

Step-Inv : (n : ℕ) (s t : System) → Step n s t → Inv n s → Inv n t
Step-Inv n s t (step i {r} {p} lt mv) inv =
    let held = total-update holding n s.place i p lt in
    let counted_now = total-update active n s.place i p lt in
    let small : s.shared.active_users < 2 ^ 31 = omega (arith, inv.permits, inv.users, inv.fewer) in
    let mine : active (s.place i) ≤ s.shared.active_users =
      omega (arith, inv.users, place-le-total active n s.place i lt) in
    let (pool, users) = Move-Moved s.shared r (s.place i) p mv small mine in
    record {
      permits = omega (arith, inv.permits, held, pool);
      users = omega (arith, inv.users, counted_now, users);
      fewer = total-le active holding n (update s.place i p) active-le-holding;
    }

Reach-Inv : (n : ℕ) (s : System) → Reach n s → Inv n s
Reach-Inv n s start =
    let none_held = total-zero holding n outside refl in
    let none_active = total-zero active n outside refl in
    record {
      permits = omega (arith, none_held);
      users = omega (arith, none_active);
      fewer = omega (arith, none_held, none_active);
    }
Reach-Inv n t (later {s} reach st) = Step-Inv n s t st (Reach-Inv n s reach)

-- In every state that is reached, whatever the number of processes and the interleaving: at most
-- three processes hold a resource, the semaphore's count is what is left of the three, and
-- `active_users` is the number of processes that have counted themselves, at most three.
pub Reach-pool :
    (n : ℕ) (s : System)
    → Reach n s
    → (total holding n s.place ≤ max_resources)
      × (s.shared.resource_pool ≡ max_resources - total holding n s.place)
      × (s.shared.active_users ≡ total active n s.place)
      × (s.shared.active_users ≤ max_resources)
Reach-pool n s reach =
    let inv = Reach-Inv n s reach in
    (
      omega (arith, inv.permits),
      omega (arith, inv.permits),
      inv.users,
      omega (arith, inv.permits, inv.users, inv.fewer),
    )
