-- ===== src/Atomic/Flags.antt =====
-- The flags of atomic_demo.c bit by bit, and commands that undo one another.
use kernel_programming.Base.{
  strcmp_equal, until_nul, not, ℕ, zero, suc, ◌^◌, ◌<◌, ◌≡◌, refl, inl, inr, Bool, true, false,
  ◌&&◌, some, List, [], ◌∷◌, ltb, leb, ◌==◌, if◌then◌else◌, codes, ok, err, einval, arith,
  Bool-cases, get_elem?, le→leb, lt→leb,
}
use mathlib.Core.Option
use kernel_programming.Kernel.User.{UserMemory}
use kernel_programming.Atomic.{
  Atomics, Scanned, word_and_number, atomic_basic_write, atomic_bits_write, basic_command,
  bits_command, basic_counter, bit_operation, input_text, at_bit, count_operation,
  atomic_add_return, atomic_sub_return,
}

get_elem?-at_bit :
    (m n : ℕ) (f : Bool → Bool) (bs : List Bool)
    → get_elem? (at_bit n f bs) m
      ≡ (if m == n then Option.map f (get_elem? bs m) else get_elem? bs m)
unfolding at_bit
get_elem?-at_bit m n f [] = ground arith
get_elem?-at_bit zero zero f (b ∷ bs) = refl
get_elem?-at_bit zero (suc n) f (b ∷ bs) = ground arith
get_elem?-at_bit (suc m) zero f (b ∷ bs) = ground arith
get_elem?-at_bit (suc m) (suc n) f (b ∷ bs) =
    let same : (suc m == suc n) ≡ (m == n) = ground arith in rw same (get_elem?-at_bit m n f bs)

-- The six commands of the file `bits`.
pub data BitCommand : Type 0 where
  set clear change test_and_set test_and_clear test_and_change : BitCommand

-- The word of a command, and what a bit is after it.
abbrev pub bit_word : BitCommand → List ℕ
bit_word set = codes "set"
bit_word clear = codes "clear"
bit_word change = codes "change"
bit_word test_and_set = codes "test_and_set"
bit_word test_and_clear = codes "test_and_clear"
bit_word test_and_change = codes "test_and_change"

abbrev pub new_bit : BitCommand → Bool → Bool
new_bit set b = true
new_bit clear b = false
new_bit change b = not b
new_bit test_and_set b = true
new_bit test_and_clear b = false
new_bit test_and_change b = not b

bit_operation_lem : (c : BitCommand) → bit_operation (bit_word c) ≡ some (new_bit c)
unfolding bit_operation strcmp_equal until_nul
bit_operation_lem set = refl
bit_operation_lem clear = refl
bit_operation_lem change = refl
bit_operation_lem test_and_set = refl
bit_operation_lem test_and_clear = refl
bit_operation_lem test_and_change = refl

-- One of the six commands on the file `bits`, with any number for its bit. Below 64 the command is
-- done: the bit at that place is set by `set` and `test_and_set`, cleared by `clear` and
-- `test_and_clear` and inverted by `change` and `test_and_change`, and every other bit stays. From 64 on, and
-- for a negative number, the call reports an invalid argument and every bit stays.
pub bits_write_lem :
    (u : UserMemory) (sscanf : List ℕ → Scanned) (s : Atomics) (count : ℕ) (t : List ℕ)
    (c : BitCommand) (n : ℕ)
    → input_text u count ≡ ok t
    → sscanf t ≡ word_and_number (bit_word c) n
    → (s' : Atomics) × (atomic_bits_write u sscanf s count
        ≡ (s', if ltb n 64 then ok count else err einval))
      × ((m : ℕ)
          → get_elem? s'.bit_flags m ≡ (
              if ltb n 64 && (m == n)
              then Option.map (new_bit c) (get_elem? s.bit_flags m)
              else get_elem? s.bit_flags m))
unfolding atomic_bits_write bits_command
bits_write_lem u sscanf s count t c n text scanned =
    let known : bit_operation (bit_word c) ≡ some (new_bit c) = bit_operation_lem c in
    elim (Bool-cases (ltb n 64)) [
      | inl e ↦
          let positive : leb (2 ^ 31) n ≡ false = lt→leb _ _ (ground arith) in
          let low : leb 64 n ≡ false = lt→leb _ _ (ground arith) in
          (
            record (count_operation s) { bit_flags = at_bit n (new_bit c) s.bit_flags },
            rw (text, scanned, positive, low, known, e),
            λ m. rw e (get_elem?-at_bit m n (new_bit c) s.bit_flags),
          )
      | inr e ↦
          let high : leb 64 n ≡ true = le→leb _ _ (ground arith) in
          (
            s,
            elim (Bool-cases (leb (2 ^ 31) n)) [
              | inl g ↦ rw (text, scanned, g, e)
              | inr g ↦ rw (text, scanned, g, high, e)
            ],
            λ m. rw e,
          )
    ]

-- A number added to the counter and then subtracted: both calls succeed, and the counter is what
-- it was, also where the sum wraps around.
pub basic_write-add_sub :
    (u u' : UserMemory) (sscanf : List ℕ → Scanned) (s : Atomics) (n n' : ℕ) (t t' : List ℕ) (v : ℕ)
    → s.counter < 2 ^ 32
    → v < 2 ^ 32
    → input_text u n ≡ ok t
    → sscanf t ≡ word_and_number (codes "add") v
    → input_text u' n' ≡ ok t'
    → sscanf t' ≡ word_and_number (codes "sub") v
    → (s1 : Atomics) × (s2 : Atomics) × (atomic_basic_write u sscanf s n ≡ (s1, ok n))
      × (atomic_basic_write u' sscanf s1 n' ≡ (s2, ok n'))
      × (s2.counter ≡ s.counter)
unfolding atomic_basic_write basic_command basic_counter strcmp_equal
basic_write-add_sub u u' sscanf s n n' t t' v small few text scanned text' scanned' =
    let one : Atomics = record (count_operation s) { counter = atomic_add_return v s.counter } in
    (
      one,
      record (count_operation one) { counter = atomic_sub_return v one.counter },
      rw (text, scanned),
      rw (text', scanned'),
      omega arith,
    )
