-- ===== src/Asm.antt =====
-- examples/inline_assembly/inline_assembly.c and assingments/as1/sol.c: the assembly fragments, as
-- programs of a machine with the registers that they name and a memory of 64-bit words. A word that is
-- not mapped faults. Overlapping words are left out: all of the addresses are aligned. An operand
-- "m"(v) is the word of the variable v, an operand "r"(&v) its address.
use kernel_programming.Base.{
  ℕ, ◌+◌, ◌%◌, ◌^◌, ◌≡◌, List, [], ◌∷◌, ◌++◌, ltb, ◌==◌, if◌then◌else◌, Bool, Option, some, none,
  Access, ◌>>=◌, Result, ok, err, einval,
}
pub mod Swap
pub mod Sums

pub data Reg : Type 0 where
  rax rbx rcx rdx rsi : Reg

abbrev pub tag : Reg → ℕ
tag rax = 0
tag rbx = 1
tag rcx = 2
tag rdx = 3
tag rsi = 4

pub record Machine : Type 0 where
  pub reg : Reg → ℕ
  pub memory : ℕ → Option ℕ

pub data Operand : Type 0 where
  imm : ℕ → Operand  -- $n
  register : Reg → Operand  -- %%r
  variable : (address : ℕ) → Operand  -- a memory operand
  pointed : (offset : ℕ) → Reg → Operand  -- offset(%%r)

pub data Instr : Type 0 where
  movq addq : (from to : Operand) → Instr

abbrev pub address_of : Machine → (offset : ℕ) → Reg → ℕ
address_of m offset r = (m.reg r + offset) % 2 ^ 64

abbrev pub get : Machine → Operand → Access ℕ
get m (imm n) = some n
get m (register r) = some (m.reg r)
get m (variable a) = m.memory a
get m (pointed offset r) = m.memory (address_of m offset r)

abbrev pub set_reg : Reg → ℕ → Machine → Machine
set_reg r v m = record m { reg = λ q. if tag q == tag r then v else m.reg q }

abbrev pub set_word : (address : ℕ) → ℕ → Machine → Machine
set_word a v m = record m { memory = λ b. if b == a then some v else m.memory b }

-- A store to a word that is mapped.
abbrev pub store : (address : ℕ) → ℕ → Machine → Access Machine
store a v m = do old ← m.memory a; some (set_word a v m)

abbrev pub put : Operand → ℕ → Machine → Access Machine
put (imm n) v m = none
put (register r) v m = some (set_reg r v m)
put (variable a) v m = store a v m
put (pointed offset r) v m = store (address_of m offset r) v m

abbrev pub step : Instr → Machine → Access Machine
step (movq from to) m = do v ← get m from; put to v m
step (addq from to) m = do v ← get m from; w ← get m to; put to ((w + v) % 2 ^ 64) m

unfoldable pub exec : List Instr → Machine → Access Machine
exec [] m = some m
exec (i ∷ is) m = step i m >>= exec is

-- The arguments are the addresses of the variables. What C stores before the fragment comes first.
unfoldable pub example_register_ops : (result input : ℕ) → List Instr
example_register_ops result input =
    movq (imm 42) (variable input)
    ∷ movq (variable input) (register rax)
    ∷ addq (imm 10) (register rax)
    ∷ movq (register rax) (variable result)
    ∷ []

unfoldable pub example_multi_commands : (rax_var rbx_var rcx_var : ℕ) → List Instr
example_multi_commands rax_var rbx_var rcx_var =
    movq (imm 100) (register rax)
    ∷ movq (imm 200) (register rbx)
    ∷ addq (register rbx) (register rax)
    ∷ movq (register rax) (variable rax_var)
    ∷ movq (register rbx) (variable rbx_var)
    ∷ movq (imm 300) (register rcx)
    ∷ movq (register rcx) (variable rcx_var)
    ∷ []

-- The fragment of `example_read_params`, and with the values that C stores before.
abbrev pub read_params : (result input1 input2 : ℕ) → List Instr
read_params result input1 input2 =
    movq (variable input1) (register rax)
    ∷ movq (variable input2) (register rbx)
    ∷ addq (register rbx) (register rax)
    ∷ movq (register rax) (variable result)
    ∷ []

unfoldable pub example_read_params : (result input1 input2 : ℕ) → List Instr
example_read_params result input1 input2 =
    movq (imm 42) (variable input1)
    ∷ movq (imm 84) (variable input2)
    ∷ read_params result input1 input2

unfoldable pub example_write_params : (output1 output2 : ℕ) → List Instr
example_write_params output1 output2 =
    movq (imm 123) (register rax)
    ∷ movq (imm 456) (register rbx)
    ∷ movq (register rax) (variable output1)
    ∷ movq (register rbx) (variable output2)
    ∷ []

-- "m"(array) is the array itself, so its operand is the word at its start.
abbrev pub sum_array : (sum array : ℕ) → List Instr
sum_array sum array =
    movq (variable array) (register rsi)
    ∷ movq (pointed 0 rsi) (register rax)
    ∷ addq (pointed 8 rsi) (register rax)
    ∷ addq (pointed 16 rsi) (register rax)
    ∷ movq (register rax) (variable sum)
    ∷ []

unfoldable pub example_address_usage : (sum array : ℕ) → List Instr
example_address_usage sum array =
    movq (imm 10) (variable array)
    ∷ movq (imm 20) (variable (array + 8))
    ∷ movq (imm 30) (variable (array + 16))
    ∷ sum_array sum array

-- Loads of two addresses, and the exchange of what they point to.
abbrev pub exchange : (a b : Operand) → List Instr
exchange a b =
    movq a (register rax)
    ∷ movq b (register rbx)
    ∷ movq (pointed 0 rax) (register rcx)
    ∷ movq (pointed 0 rbx) (register rdx)
    ∷ movq (register rdx) (pointed 0 rax)
    ∷ movq (register rcx) (pointed 0 rbx)
    ∷ []

unfoldable pub example_swap_variables : (x y : ℕ) → List Instr
example_swap_variables x y =
    movq (imm 42) (variable x) ∷ movq (imm 84) (variable y) ∷ exchange (imm x) (imm y)

-- assingments/as1/sol.c: `a` and `b` are the addresses of the parameters, which hold pointers.
unfoldable pub swap_asm : (a b : ℕ) → List Instr
swap_asm a b = exchange (variable a) (variable b)

-- The variables of all examples: the first three words of a stack frame, and the array behind them.
-- `cpuid` and `rdtsc` are what these instructions do to the machine.
unfoldable pub inline_asm_init :
    (cpuid rdtsc : Machine → Machine) → (frame example : ℕ) → Machine → Access (Machine × Result ℕ)
inline_asm_init cpuid rdtsc frame example m =
    let run : List Instr → Access (Machine × Result ℕ) =
      λ is. exec is m >>= λ m'. some (m', ok 0) in
    if example == 0
    then some (cpuid m, ok 0)
    else if example == 1
    then some (rdtsc m, ok 0)
    else if example == 2
    then run (example_register_ops frame (frame + 8))
    else if example == 3
    then run (example_multi_commands frame (frame + 8) (frame + 16))
    else if example == 4
    then run (example_read_params frame (frame + 8) (frame + 16))
    else if example == 5
    then run (example_write_params frame (frame + 8))
    else if example == 6
    then run (example_address_usage frame (frame + 8))
    else if example == 7
    then run (example_swap_variables frame (frame + 8))
    else some (m, err einval)
