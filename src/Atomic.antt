-- ===== src/Atomic.antt =====
-- examples/class_3/04_atomic_operations/atomic_demo.c: counters, a reference count and a word of
-- flags, changed by commands written to three /proc files. An int is its 32-bit pattern, the
-- 64-bit counter its 64-bit pattern, and the flags are their 64 bits, lowest first.
-- sscanf("%15s %d") is the kernel's: a parameter says what it finds.
use kernel_programming.Base.{
  strcmp_equal, ℕ, zero, suc, ◌+◌, ◌-◌, ◌%◌, ◌^◌, Bool, true, false, not, ◌&&◌, ◌||◌, Option, none,
  some, List, [], ◌∷◌, ◌++◌, ltb, leb, ◌==◌, if◌then◌else◌, replicate, until_nul, codes, Result, ok,
  err, enomem, einval, efault,
}
use kernel_programming.Kernel.User.{UserMemory}
pub mod Counters
pub mod Flags

pub record Atomics : Type 0 where
  pub counter : ℕ
  pub operations_count : ℕ
  pub large_counter : ℕ
  pub bit_flags : List Bool
  pub ref_count : ℕ

abbrev pub fresh_atomics : Atomics
fresh_atomics = record {
  counter = 0;
  operations_count = 0;
  large_counter = 0;
  bit_flags = replicate 64 false;
  ref_count = 1;
}

abbrev pub word32 : ℕ → ℕ
word32 n = n % 2 ^ 32

-- The atomic operations of linux/atomic.h on 32-bit patterns.
abbrev pub atomic_add_return : (value v : ℕ) → ℕ
atomic_add_return value v = word32 (v + value)

abbrev pub atomic_sub_return : (value v : ℕ) → ℕ
atomic_sub_return value v = word32 (v + 2 ^ 32 - word32 value)

abbrev pub atomic_cmpxchg : (old new v : ℕ) → ℕ
atomic_cmpxchg old new v = if v == old then new else v

-- An int as a 64-bit pattern: its sign goes into the upper half.
abbrev pub sign_extend : ℕ → ℕ
sign_extend v = if leb (2 ^ 31) v then v + 2 ^ 64 - 2 ^ 32 else v

-- The first `n` bits changed at one place.
unfoldable pub at_bit : (n : ℕ) → (Bool → Bool) → List Bool → List Bool
at_bit n f [] = []
at_bit zero f (b ∷ bs) = f b ∷ bs
at_bit (suc n) f (b ∷ bs) = b ∷ at_bit n f bs

-- What sscanf(input, "%15s %d", ..) converts: nothing, the word, or both.
pub data Scanned : Type 0 where
  no_word : Scanned
  word : List ℕ → Scanned
  word_and_number : List ℕ → ℕ → Scanned

abbrev pub count_operation : Atomics → Atomics
count_operation s = record s { operations_count = word32 (s.operations_count + 1) }

-- The commands of the file `basic`: the counter after one, `none` where it is unknown.
unfoldable pub basic_counter : (operation : List ℕ) (value counter : ℕ) → Option ℕ
basic_counter operation value counter =
    if strcmp_equal operation (codes "inc")
    then some (atomic_add_return 1 counter)
    else if strcmp_equal operation (codes "dec")
    then some (atomic_sub_return 1 counter)
    else if strcmp_equal operation (codes "add")
    then some (atomic_add_return value counter)
    else if strcmp_equal operation (codes "sub")
    then some (atomic_sub_return value counter)
    else if strcmp_equal operation (codes "set")
    then some value
    else if strcmp_equal operation (codes "xchg")
    then some value
    else if strcmp_equal operation (codes "cmpxchg")
    then some (atomic_cmpxchg counter value counter)
    else none

abbrev pub set_counter : Atomics → (count : ℕ) → Option ℕ → Atomics × Result ℕ
set_counter s count none = (s, err einval)
set_counter s count (some v) = (record s { counter = v }, ok count)

unfoldable pub basic_command : Atomics → (count : ℕ) → Scanned → Atomics × Result ℕ
basic_command s count no_word = (s, err einval)
basic_command s count (word operation) =
    set_counter (count_operation s) count (basic_counter operation 0 s.counter)
basic_command s count (word_and_number operation value) =
    set_counter (count_operation s) count (basic_counter operation value s.counter)

-- What the three handlers do first: the text, or the error.
abbrev pub input_text : UserMemory → (count : ℕ) → Result (List ℕ)
input_text u count =
    if ltb 31 count
    then err einval
    else if not (u.from_left count == 0)
    then err efault
    else ok (until_nul (u.from_user count ++ 0 ∷ []))

abbrev pub with_input :
    Atomics
    → (command : Scanned → Atomics × Result ℕ) (sscanf : List ℕ → Scanned) → Result (List ℕ)
    → Atomics × Result ℕ
with_input s command sscanf (err e) = (s, err e)
with_input s command sscanf (ok input) = command (sscanf input)

unfoldable pub atomic_basic_write :
    UserMemory → (sscanf : List ℕ → Scanned) → Atomics → (count : ℕ) → Atomics × Result ℕ
atomic_basic_write u sscanf s count =
    with_input s (basic_command s count) sscanf (input_text u count)

-- ref_put: a count that reaches zero is set to one again.
abbrev pub ref_put : ℕ → ℕ
ref_put v = if atomic_sub_return 1 v == 0 then 1 else atomic_sub_return 1 v

-- The commands of the file `advanced`; what the tests find is only logged.
unfoldable pub advanced_operation : (operation : List ℕ) (value : ℕ) → Atomics → Option Atomics
advanced_operation operation value s =
    if strcmp_equal operation (codes "dec_and_test")
    then some (record s { counter = atomic_sub_return 1 s.counter })
    else if strcmp_equal operation (codes "inc_and_test")
    then some (record s { counter = atomic_add_return 1 s.counter })
    else if strcmp_equal operation (codes "sub_and_test")
    then some (record s { counter = atomic_sub_return value s.counter })
    else if strcmp_equal operation (codes "add_negative")
    then some (record s { counter = atomic_add_return value s.counter })
    else if strcmp_equal operation (codes "large_inc")
    then some (record s { large_counter = (s.large_counter + 1) % 2 ^ 64 })
    else if strcmp_equal operation (codes "large_add")
    then some (record s { large_counter = (s.large_counter + sign_extend value) % 2 ^ 64 })
    else if strcmp_equal operation (codes "ref_get")
    then some (record s { ref_count = atomic_add_return 1 s.ref_count })
    else if strcmp_equal operation (codes "ref_put")
    then some (record s { ref_count = ref_put s.ref_count })
    else none

abbrev pub set_state : Atomics → (count : ℕ) → Option Atomics → Atomics × Result ℕ
set_state s count none = (s, err einval)
set_state s count (some s') = (s', ok count)

unfoldable pub advanced_command : Atomics → (count : ℕ) → Scanned → Atomics × Result ℕ
advanced_command s count no_word = (s, err einval)
advanced_command s count (word operation) =
    set_state (count_operation s) count (advanced_operation operation 0 (count_operation s))
advanced_command s count (word_and_number operation value) =
    set_state (count_operation s) count (advanced_operation operation value (count_operation s))

unfoldable pub atomic_advanced_write :
    UserMemory → (sscanf : List ℕ → Scanned) → Atomics → (count : ℕ) → Atomics × Result ℕ
atomic_advanced_write u sscanf s count =
    with_input s (advanced_command s count) sscanf (input_text u count)

-- The commands of the file `bits`: what becomes of the bit, `none` where the command is unknown.
unfoldable pub bit_operation : (operation : List ℕ) → Option (Bool → Bool)
bit_operation operation =
    if strcmp_equal operation (codes "set")
    then some (λ b. true)
    else if strcmp_equal operation (codes "clear")
    then some (λ b. false)
    else if strcmp_equal operation (codes "change")
    then some not
    else if strcmp_equal operation (codes "test_and_set")
    then some (λ b. true)
    else if strcmp_equal operation (codes "test_and_clear")
    then some (λ b. false)
    else if strcmp_equal operation (codes "test_and_change")
    then some not
    else none

abbrev pub change_bit_of : Atomics → (count bit_num : ℕ) → Option (Bool → Bool) → Atomics × Result ℕ
change_bit_of s count bit_num none = (s, err einval)
change_bit_of s count bit_num (some f) =
    (record s { bit_flags = at_bit bit_num f s.bit_flags }, ok count)

unfoldable pub bits_command : Atomics → (count : ℕ) → Scanned → Atomics × Result ℕ
bits_command s count no_word = (s, err einval)
bits_command s count (word operation) = (s, err einval)
bits_command s count (word_and_number operation bit_num) =
    if leb (2 ^ 31) bit_num || leb 64 bit_num
    then (s, err einval)
    else change_bit_of (count_operation s) count bit_num (bit_operation operation)

unfoldable pub atomic_bits_write :
    UserMemory → (sscanf : List ℕ → Scanned) → Atomics → (count : ℕ) → Atomics × Result ℕ
atomic_bits_write u sscanf s count = with_input s (bits_command s count) sscanf (input_text u count)

-- The positions at which the loop of `atomic_bits_show` prints a digit, from `n - 1` down.
unfoldable pub printed_bits : (n : ℕ) → List ℕ
printed_bits zero = []
printed_bits (suc i) =
    let rest : List ℕ = printed_bits i in if ltb i 8 || (i % 4 == 3) then i ∷ rest else rest

-- The flag that is set at loading, and whether the five /proc entries can be made.
unfoldable pub atomic_comprehensive_init :
    (proc_mkdir basic advanced bits status : Bool) → Atomics → Atomics × Result ℕ
atomic_comprehensive_init proc_mkdir basic advanced bits status s =
    let s : Atomics = record s { bit_flags = at_bit 0 (λ b. true) s.bit_flags } in
    if not proc_mkdir
    then (s, err enomem)
    else if not basic || (not advanced || (not bits || not status))
    then (s, err enomem)
    else (s, ok 0)
