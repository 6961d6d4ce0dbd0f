-- ===== src/Tests/Asm.antt =====
-- The assembly fragments on a stack frame of five words at 4096, with nothing mapped elsewhere.
use kernel_programming.Base.{
  ℕ, ◌≡◌, refl, Option, some, none, ◌==◌, ◌||◌, if◌then◌else◌, arith, ok, err, einval,
}
use kernel_programming.Asm.{
  Machine, exec, swap_asm, example_read_params, example_address_usage, example_swap_variables,
  inline_asm_init,
}
use kernel_programming.Asm.Swap.{swap_asm_lem}
use kernel_programming.Asm.Sums.{example_address_usage-fault}

-- The parameters of the swap at 4096 and 4104 point to the words at 4112 and 4120.
abbrev frame : ℕ → Option ℕ
frame a =
    if a == 4096
    then some 4112
    else if a == 4104
    then some 4120
    else if a == 4112 || (a == 4120 || a == 4128)
    then some a
    else none

abbrev machine : Machine
machine = record { reg = λ r. 0; memory = frame }

swap_asm_lem_example :
    (m' : Machine) × (exec (swap_asm 4096 4104) machine ≡ some m')
    × (m'.memory 4112 ≡ some 4120)
    × (m'.memory 4120 ≡ some 4112)
    × (m'.memory 4128 ≡ some 4128)
swap_asm_lem_example =
    swap_asm_lem 4096 4104 4112 4120 4112 4120 4128 machine refl refl (omega arith) (omega arith)
      refl refl

example_address_usage-fault_example : exec (example_address_usage 4096 4104) machine ≡ none
example_address_usage-fault_example =
    example_address_usage-fault 4096 4104 4120 4112 4120 machine refl refl refl (omega arith) refl

-- The example with the swap.
swapped :
    (m' : Machine) × (inline_asm_init (λ m. m) (λ m. m) 4096 7 machine ≡ some (m', ok 0))
    × (m'.memory 4096 ≡ some 84)
    × (m'.memory 4104 ≡ some 42)
unfolding inline_asm_init example_swap_variables exec
swapped = (_, refl, refl, refl)

sums :
    (m' : Machine) × (inline_asm_init (λ m. m) (λ m. m) 4096 4 machine ≡ some (m', ok 0))
    × (m'.memory 4096 ≡ some 126)
unfolding inline_asm_init example_read_params exec
sums = (_, refl, refl)

no_example : inline_asm_init (λ m. m) (λ m. m) 4096 8 machine ≡ some (machine, err einval)
unfolding inline_asm_init
no_example = refl
