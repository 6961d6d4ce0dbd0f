-- ===== src/Asm/Sums.antt =====
-- The sums of the assembly fragments, and the array example.
use kernel_programming.Base.{
  ℕ, ◌+◌, ◌%◌, ◌^◌, ◌<◌, ◌≡◌, refl, ◌==◌, if◌then◌else◌, some, none, false, ==_self, arith,
}
use kernel_programming.Asm.{
  Machine, rax, rbx, exec, set_reg, set_word, read_params, sum_array, example_address_usage,
}

-- The fragment adds two words of memory, modulo 2 ^ 64, whatever they are and wherever the result
-- is; and no other word changes.
pub read_params_lem :
    (result input1 input2 x y old c : ℕ) (m : Machine)
    → m.memory input1 ≡ some x
    → m.memory input2 ≡ some y
    → m.memory result ≡ some old
    → (m' : Machine) × (exec (read_params result input1 input2) m ≡ some m')
      × (m'.memory c ≡ (if c == result then some ((x + y) % 2 ^ 64) else m.memory c))
unfolding exec
read_params_lem result input1 input2 x y old c m h1 h2 hr = (
  set_word result ((x + y) % 2 ^ 64)
      (set_reg rax ((x + y) % 2 ^ 64) (set_reg rbx y (set_reg rax x m))),
  rw (h1, h2, hr) refl,
  refl,
)

-- The fragment of the array example does not add up the array: it takes the array's first word for
-- an address. Where no word is mapped there, it faults, whatever else the array holds.
pub sum_array-fault :
    (sum array first : ℕ) (m : Machine)
    → m.memory array ≡ some first
    → first < 2 ^ 64
    → m.memory first ≡ none
    → exec (sum_array sum array) m ≡ none
unfolding exec
sum_array-fault sum array first m ha lt hf =
    let e : (first + 0) % 2 ^ 64 ≡ first = omega arith in rw (ha, e, hf) refl

-- With the array of the example, 10, 20 and 30, anywhere above address 10 where its words are mapped:
-- the example faults where address 10 is not mapped, and so computes no sum.
pub example_address_usage-fault :
    (sum array a b d : ℕ) (m : Machine)
    → m.memory array ≡ some a
    → m.memory (array + 8) ≡ some b
    → m.memory (array + 16) ≡ some d
    → 10 < array
    → m.memory 10 ≡ none
    → exec (example_address_usage sum array) m ≡ none
unfolding example_address_usage exec
example_address_usage-fault sum array a b d m ha hb hd above unmapped =
    let n1 : (array + 8 == array) ≡ false = ground arith in
    let n2 : (array + 16 == array) ≡ false = ground arith in
    let n3 : (array + 16 == array + 8) ≡ false = ground arith in
    let filled : Machine =
      set_word (array + 16) 30 (set_word (array + 8) 20 (set_word array 10 m)) in
    let b1 : (array == array + 16) ≡ false = ground arith in
    let b2 : (array == array + 8) ≡ false = ground arith in
    let t1 : (10 == array + 16) ≡ false = ground arith in
    let t2 : (10 == array + 8) ≡ false = ground arith in
    let t3 : (10 == array) ≡ false = ground arith in
    let faults : exec (sum_array sum array) filled ≡ none =
      sum_array-fault sum array 10 filled (rw (b1, b2, ==_self array) refl) (omega arith)
        (rw (t1, t2, t3, unmapped) refl) in
    rw (ha, n1, hb, n3, n2, hd) faults
