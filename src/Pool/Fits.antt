-- ===== src/Pool/Fits.antt =====
-- The texts of the mutex file and the status file fit their buffers.
use kernel_programming.Base.{
  ℕ, ◌+◌, ◌-◌, ◌%◌, ◌^◌, ◌≤◌, ◌<◌, ◌≡◌, refl, sym, ap, ◌∙◌, inl, inr, Bool, some, List, ◌∷◌, ◌++◌,
  codes, subst, replicate, length, take, drop, take_all, length-append, until_nul, length-until_nul,
  take-until_nul, until_nul-append, IsString, IsString-append, strlen, read_at-within, slice,
  Bool-cases, ltb, arith, err, erestartsys,
}
use kernel_programming.Kernel.User.{UserMemory}
use kernel_programming.Kernel.Once.{
  snprintf, snprintf_lem, print_once_lem, delivery, at_end, failing,
}
use kernel_programming.Kernel.Decimal.{IsDecimal}
use kernel_programming.Kernel.Reading.{Reading}
use kernel_programming.Pool.{Resources, max_resources, System, Reach}
use kernel_programming.Pool.Bounds.{Reach-pool}
use kernel_programming.Pool.Mutex.{
  MutexData, Served, printed, pid_message, message_size, output_size, mutex_text, status_text,
  mutex_demo_read, status_read, fresh_data, added,
}

-- The message is a string of at most 22 bytes: its 15 fixed ones, and a pid below 10 ^ 7.
pub record IsMessage (m : MutexData) : Type 0 where
  pub sized : length m.shared_message ≡ message_size
  pub string : IsString m.shared_message
  pub short : length (until_nul m.shared_message) ≤ 22

pub fresh_data-IsMessage : IsMessage fresh_data
unfolding strlen until_nul replicate
fresh_data-IsMessage = record { sized = refl; string = refl; short = omega arith }

printed_lem : (cs : List ℕ) → IsString cs → printed cs ≡ some (until_nul cs)
unfolding printed slice
printed_lem cs string =
    rw (string, read_at-within cs 0 (length (until_nul cs)) (omega (arith, length-until_nul cs)))
      (ap some (take-until_nul cs))

module _ (decimal : ℕ → List ℕ) (d : IsDecimal decimal) where
  length-pid_message : (pid : ℕ) → pid < 10 ^ 7 → length (pid_message decimal pid) ≤ 22
  length-pid_message pid few = omega (
    arith,
    length-append (codes "Updated by PID ") (decimal pid),
    d.short pid 7 (omega arith) few,
  )

  length-mutex_text :
      (value pid : ℕ) (msg : List ℕ)
      → length msg ≤ 22
      → length (mutex_text decimal value pid msg) < output_size
  length-mutex_text value pid msg h =
      rw (length-append, length-append, length-append, length-append, length-append, length-append)
        (omega (arith, d.int value, d.int pid))

  length-status_text :
      (value users id : ℕ) (msg : List ℕ)
      → users ≤ max_resources
      → length msg ≤ 22
      → length (status_text decimal value users id msg) < output_size
  length-status_text value users id msg few h =
      rw
        (
          length-append, length-append, length-append, length-append, length-append, length-append,
          length-append, length-append, length-append, length-append,
        )
        (omega (
          arith,
          d.int value,
          d.short users 1 (omega arith) (omega arith),
          d.short max_resources 1 (omega arith) (omega arith),
          d.int id,
        ))

  message_lem :
      (m : MutexData) (pid : ℕ)
      → IsMessage m
      → pid < 10 ^ 7
      → (message : List ℕ) × (snprintf m.shared_message message_size (pid_message decimal pid)
          ≡ some message)
        × IsMessage (record { shared_data = added pid m; shared_message = message })
  message_lem m pid i few =
      let text : List ℕ = pid_message decimal pid in
      let n : length text ≤ 22 = length-pid_message pid few in
      let whole : take (message_size - 1) text ≡ text =
        take_all (message_size - 1) text (omega arith) in
      let rest : List ℕ = drop (length text + 1) m.shared_message in
      let (written, sized) =
        snprintf_lem m.shared_message message_size text (omega arith) i.sized in
      (
        text ++ 0 ∷ rest,
        written ∙ ap (λ t. some (t ++ 0 ∷ drop (length t + 1) m.shared_message)) whole,
        record {
          sized =
              ap (λ t. length (t ++ 0 ∷ drop (length t + 1) m.shared_message)) (sym whole) ∙ sized;
          string = IsString-append text rest;
          short =
              let same : length (until_nul (text ++ 0 ∷ rest)) ≡ length (until_nul text) =
                ap length (until_nul-append text rest) in
              omega (arith, same, length-until_nul text, n);
        },
      )

  pub mutex_demo_read_fits :
      (u : UserMemory) (interrupted : Bool) (pid pos : ℕ) (output : List ℕ) (m : MutexData)
      → IsMessage m
      → pid < 10 ^ 7
      → length output ≡ output_size
      → (served : Served) × (mutex_demo_read decimal u interrupted pid pos output m ≡ some served)
        × IsMessage served.demo
  unfolding mutex_demo_read
  mutex_demo_read_fits u interrupted pid pos output m i few sized = elim (Bool-cases (ltb 0 pos)) [
    | inl e ↦ (record { demo = m; reading = at_end pos }, rw e refl, i)
    | inr e ↦ elim (Bool-cases interrupted) [
      | inl e' ↦ (record { demo = m; reading = failing pos (err erestartsys) }, rw (e, e') refl, i)
      | inr e' ↦
          let (message, written, i') = message_lem m pid i few in
          let msg : List ℕ = until_nul message in
          let (_, once, _) =
            print_once_lem output_size u output (mutex_text decimal (added pid m) pid msg) sized
              (length-mutex_text (added pid m) pid msg i'.short) in
          (
            record {
              demo = record { shared_data = added pid m; shared_message = message };
              reading = delivery u (mutex_text decimal (added pid m) pid msg);
            },
            rw (e, e', written, printed_lem message i'.string, once) refl,
            i',
          )
    ]
  ]

  pub status_read_fits :
      (u : UserMemory) (pos : ℕ) (output : List ℕ) (m : MutexData) (r : Resources)
      → IsMessage m
      → r.active_users ≤ max_resources
      → length output ≡ output_size
      → (reading : Reading) × (status_read decimal u pos output m r ≡ some reading)
  unfolding status_read
  status_read_fits u pos output m r i few sized = elim (Bool-cases (ltb 0 pos)) [
    | inl e ↦ (at_end pos, rw e refl)
    | inr e ↦
        let msg : List ℕ = until_nul m.shared_message in
        let id : ℕ = (r.resource_id_counter + 2 ^ 32 - 1) % 2 ^ 32 in
        let (_, once, _) =
          print_once_lem output_size u output
            (status_text decimal m.shared_data r.active_users id msg) sized
            (length-status_text m.shared_data r.active_users id msg few i.short) in
        (
          delivery u (status_text decimal m.shared_data r.active_users id msg),
          rw (e, printed_lem m.shared_message i.string, once) refl,
        )
  ]

-- The data behind the mutex after any calls of `mutex_demo_read`, by pids below 10 ^ 7.
pub data History (decimal : ℕ → List ℕ) : MutexData → Type 0 where
  start : History decimal fresh_data
  call :
      {m : MutexData} {served : Served} (u : UserMemory) (interrupted : Bool) (pid pos : ℕ)
      (output : List ℕ)
      → History decimal m
      → pid < 10 ^ 7
      → length output ≡ output_size
      → mutex_demo_read decimal u interrupted pid pos output m ≡ some served
      → History decimal served.demo

History-IsMessage :
    (decimal : ℕ → List ℕ) (d : IsDecimal decimal) (m : MutexData) → History decimal m → IsMessage m
History-IsMessage decimal d m start = fresh_data-IsMessage
History-IsMessage decimal d m
      (call {m = m0} {served = served} u interrupted pid pos output h few sized e) =
    let (served', e', i) =
      mutex_demo_read_fits decimal d u interrupted pid pos output m0
        (History-IsMessage decimal d m0 h) few sized in
    let same : some served' ≡ some served = sym e' ∙ e in
    let same : served' ≡ served = ground arith in subst (λ v. IsMessage v.demo) same i

-- The texts fit their 64 and 256 bytes: after any calls of `mutex_demo_read`, and in any state of
-- the pool that processes reach, a further `mutex_demo_read` by a pid below 10 ^ 7 and a read of
-- the status return, with no access outside a buffer, where %d prints at most k digits for a number
-- below 10 ^ k and at most 11 characters for an int. That the status fits needs the bound on the
-- active users.
pub reads-fit :
    (decimal : ℕ → List ℕ) (u : UserMemory) (interrupted : Bool) (pid pos n : ℕ) (output : List ℕ)
    (m : MutexData) (s : System)
    → IsDecimal decimal
    → History decimal m
    → Reach n s
    → pid < 10 ^ 7
    → length output ≡ output_size
    → ((served : Served) × (mutex_demo_read decimal u interrupted pid pos output m ≡ some served))
      × ((reading : Reading) × (status_read decimal u pos output m s.shared ≡ some reading))
reads-fit decimal u interrupted pid pos n output m s d h reach few sized =
    let i = History-IsMessage decimal d m h in
    let (served, e, _) =
      mutex_demo_read_fits decimal d u interrupted pid pos output m i few sized in
    let (_, _, _, users) = Reach-pool n s reach in
    ((served, e), status_read_fits decimal d u pos output m s.shared i users sized)
