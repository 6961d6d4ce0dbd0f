-- ===== src/Labs/Names.antt =====
-- What the names of task states tell.
use Prim.Native.Nat.{bit_and, bit_and-bitwise, digits, min}
use kernel_programming.Base.{
  ℕ, zero, suc, ◌/◌, ◌%◌, ◌≡◌, ◌≢◌, refl, sym, ap, ◌∙◌, List, codes, strcmp_equal, Bool, true,
  false, if◌then◌else◌, arith,
}
use kernel_programming.Labs.{Constants, has, get_state_name}

min_zero : (x : ℕ) → min x 0 ≡ 0
min_zero x = omega arith

no_digits : (n a : ℕ) → digits (λ b. 0) min n a 0 ≡ 0
no_digits zero a = refl
no_digits (suc n) zero = refl
no_digits (suc n) (suc a) = rw (no_digits n (suc a / 2), min_zero (suc a % 2)) refl

no_flag : (state : ℕ) → bit_and state 0 ≡ 0
no_flag state = bit_and-bitwise state 0 ∙ no_digits state state

unset : (state flag : ℕ) → flag ≡ 0 → has state flag ≡ false
unset state flag z = rw (z, no_flag state) refl

no_state : (flag : ℕ) → bit_and 0 flag ≡ 0
no_state flag = bit_and-bitwise 0 flag

apart : (s t : List ℕ) → strcmp_equal s t ≡ false → strcmp_equal t t ≡ true → s ≢ t
apart s t differ self e =
    let same : false ≡ true = sym differ ∙ ap (λ x. strcmp_equal x t) e ∙ self in cc

either : (b : Bool) (s t name : List ℕ) → s ≢ name → t ≢ name → (if b then s else t) ≢ name
either true s t name hs ht = hs
either false s t name hs ht = ht

-- TASK_RUNNING is 0, and a test for it with & is never true: whatever a task's state is, its name is
-- not that of a running task, and the state of a task that runs is shown as unknown.
pub get_state_name-running :
    (k : Constants) (state : ℕ)
    → k.task_running ≡ 0
    → (get_state_name k state ≢ codes "TASK_RUNNING")
      × (get_state_name k k.task_running ≡ codes "unknown")
unfolding get_state_name strcmp_equal
get_state_name-running k state z =
    let running : List ℕ = codes "TASK_RUNNING" in
    (
      (rw (unset state k.task_running z) (
          either (has state k.task_interruptible) (codes "TASK_INTERRUPTIBLE") _ running
            (apart _ running refl refl)
            (either (has state k.task_uninterruptible) (codes "TASK_UNINTERRUPTIBLE") _ running
              (apart _ running refl refl)
              (either (has state k.task_stopped) (codes "TASK_STOPPED") _ running
                (apart _ running refl refl)
                (either (has state k.task_traced) (codes "TASK_TRACED") _ running
                  (apart _ running refl refl)
                  (either (has state k.exit_zombie) (codes "EXIT_ZOMBIE") _ running
                    (apart _ running refl refl)
                    (either (has state k.exit_dead) (codes "EXIT_DEAD") (codes "unknown") running
                      (apart _ running refl refl) (apart _ running refl refl)))))))),
      rw
          (
            z,
            no_state 0,
            no_state k.task_interruptible,
            no_state k.task_uninterruptible,
            no_state k.task_stopped,
            no_state k.task_traced,
            no_state k.exit_zombie,
            no_state k.exit_dead,
          )
          refl,
    )
