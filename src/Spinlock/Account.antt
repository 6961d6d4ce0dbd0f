-- ===== src/Spinlock/Account.antt =====
-- The number and the count of the spin lock demo are an account of the calls.
use kernel_programming.Base.{
  ℕ, true, false, ◌+◌, ◌%◌, ◌^◌, ◌≤◌, ◌<◌, ◌≡◌, ap, ◌∙◌, inl, inr, Bool-cases, List, [], ◌∷◌,
  length, length-append, ltb, ◌==◌, if◌then◌else◌, Result, ok, err, Access, Option, some, none,
  ◌>>=◌, arith,
}
use kernel_programming.Kernel.User.{UserMemory}
use kernel_programming.Kernel.Once.{print_once_lem}
use kernel_programming.Kernel.Decimal.{IsDecimal}
use kernel_programming.Kernel.Input.{int_input}
use kernel_programming.Spinlock.{
  SharedData, counted, spinlock_text, spinlock_read, spinlock_write, stored,
}

-- A call of one of the handlers, by some user, and what kmalloc answers.
pub data Call : Type 0 where
  read : UserMemory → (memory : Option (List ℕ)) (count pos : ℕ) → Call
  write : UserMemory → (count : ℕ) → Call

-- The calls that get to the critical section, and the value that a write leaves there.
abbrev pub operations_of_write : Result ℕ → ℕ
operations_of_write (ok _) = 1
operations_of_write (err _) = 0

abbrev pub value_of_write : (before : ℕ) → Result ℕ → ℕ
value_of_write before (ok value) = value
value_of_write before (err _) = before

-- The number of operations, and the last value written.
module _ (kstrtoint : List ℕ → Option ℕ) where
  unfoldable pub operations : List Call → ℕ
  operations [] = 0
  operations (read u none count pos ∷ cs) = operations cs
  operations (read u (some _) count pos ∷ cs) = (if pos == 0 then 1 else 0) + operations cs
  operations (write u count ∷ cs) =
      operations_of_write (int_input 32 u kstrtoint count) + operations cs

  unfoldable pub last_value : (before : ℕ) → List Call → ℕ
  last_value before [] = before
  last_value before (read u memory count pos ∷ cs) = last_value before cs
  last_value before (write u count ∷ cs) =
      last_value (value_of_write before (int_input 32 u kstrtoint count)) cs

  module _ (decimal unsigned_long : ℕ → List ℕ) where
    abbrev pub serve : Call → SharedData → Access SharedData
    serve (read u memory count pos) s = do
      (after, reading) ← spinlock_read decimal unsigned_long u memory count pos s
      some after
    serve (write u count) s = some (spinlock_write u kstrtoint count s).0

    abbrev pub serve_all : List Call → SharedData → Access SharedData
    serve_all [] s = some s
    serve_all (c ∷ cs) s = serve c s >>= serve_all cs

-- kmalloc's memory has the size that was asked for.
abbrev pub Sized : List Call → Type 0
Sized [] = Unit {0}
Sized (read u none count pos ∷ cs) = Sized cs
Sized (read u (some memory) count pos ∷ cs) = (length memory ≡ 256) × Sized cs
Sized (write u count ∷ cs) = Sized cs

text_fits :
    (decimal unsigned_long : ℕ → List ℕ) (s : SharedData)
    → IsDecimal decimal
    → ((n : ℕ) → length (unsigned_long n) ≤ 20)
    → length (spinlock_text decimal unsigned_long s) < 256
text_fits decimal unsigned_long s d l =
    rw (length-append, length-append, length-append, length-append)
      (omega (arith, d.int s.shared_data, l s.operation_count))

-- What the calls make of a state, by the account of them.
abbrev pub account : (kstrtoint : List ℕ → Option ℕ) → List Call → SharedData → SharedData
account kstrtoint cs s = record {
  shared_data = last_value kstrtoint s.shared_data cs;
  operation_count = (s.operation_count + operations kstrtoint cs) % 2 ^ 64;
}

at_count :
    (value n m : ℕ)
    → n ≡ m
    → ◌≡◌ {A = Access SharedData}
        (some (record { shared_data = value; operation_count = n }))
        (some (record { shared_data = value; operation_count = m }))
at_count value n m e = ap (λ c. some (record { shared_data = value; operation_count = c })) e

module _ (kstrtoint : List ℕ → Option ℕ) (decimal unsigned_long : ℕ → List ℕ)
    (d : IsDecimal decimal) (l : (n : ℕ) → length (unsigned_long n) ≤ 20) where
  write_account :
      (cs : List Call) (s : SharedData) (count : ℕ) (r : Result ℕ)
      → s.operation_count < 2 ^ 64
      → ((s' : SharedData)
          → s'.operation_count < 2 ^ 64
          → serve_all kstrtoint decimal unsigned_long cs s' ≡ some (account kstrtoint cs s'))
      → serve_all kstrtoint decimal unsigned_long cs (stored count s r).0
        ≡ some (record {
          shared_data = last_value kstrtoint (value_of_write s.shared_data r) cs;
          operation_count =
              (s.operation_count + (operations_of_write r + operations kstrtoint cs)) % 2 ^ 64;
        })
  write_account cs s count (err e) h rest =
      rest s h ∙ at_count (last_value kstrtoint s.shared_data cs) _ _ (omega arith)
  write_account cs s count (ok value) h rest =
      rest (record (counted s) { shared_data = value }) (omega arith)
      ∙ at_count (last_value kstrtoint value cs) _ _ (omega arith)

  -- Any calls, from any state, return, where the memory that kmalloc gives has the 256 bytes asked
  -- for, %d prints at most 11 characters for an int and %lu at most 20: no text is longer than its
  -- buffer. Then the count has grown, modulo 2 ^ 64, by the writes with a number in them and the
  -- reads at position 0 that got memory, and the number is that of the last such write.
  pub serve_all-account :
      (cs : List Call) (s : SharedData)
      → Sized cs
      → s.operation_count < 2 ^ 64
      → serve_all kstrtoint decimal unsigned_long cs s ≡ some (account kstrtoint cs s)
  unfolding spinlock_read spinlock_write operations last_value
  serve_all-account [] s v h = at_count s.shared_data _ _ (omega arith)
  serve_all-account (read u none count pos ∷ cs) s v h =
      let rest = serve_all-account cs s v h in
      elim (Bool-cases (ltb 0 pos)) [ inl e ↦ rw e rest | inr e ↦ rw e rest ]
  serve_all-account (read u (some m) count pos ∷ cs) s v h = elim (Bool-cases (ltb 0 pos)) [
    | inl e ↦
        let later : (pos == 0) ≡ false = ground arith in
        rw (e, later)
          (serve_all-account cs s v.1 h
            ∙ at_count (last_value kstrtoint s.shared_data cs) _ _ (omega arith))
    | inr e ↦
        let first : (pos == 0) ≡ true = ground arith in
        let fits = text_fits decimal unsigned_long (counted s) d l in
        let (_, printed, _) =
          print_once_lem 256 u m (spinlock_text decimal unsigned_long (counted s)) v.0 fits in
        rw (e, first, printed)
          (serve_all-account cs (counted s) v.1 (omega arith)
            ∙ at_count (last_value kstrtoint s.shared_data cs) _ _ (omega arith))
  ]
  serve_all-account (write u count ∷ cs) s v h =
      write_account cs s count (int_input 32 u kstrtoint count) h
        (λ s' h'. serve_all-account cs s' v h')
