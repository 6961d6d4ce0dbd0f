-- ===== src/Tests/Shared.antt =====
-- The shared memory device at the state that its initialisation leaves.
use kernel_programming.Base.{
  codes, strcmp_equal, arith, ℕ, zero, suc, ◌+◌, ◌≡◌, refl, true, none, some, List, [], ◌∷◌, enomem,
  replicate, length-replicate, until_nul,
}
use mathlib.Core.HLevel.{⊥_prop}
use mathlib.Core.Logic.Or
use mathlib.Core.List.{Mem, not-mem-nil, eq-or-mem_of_mem-cons}
use kernel_programming.Shared.{fresh_shared, process_message, Answers}
use kernel_programming.Shared.Client.{interactive, cut_line}
use kernel_programming.Shared.Conversation.{answers, interactive-answers}
use kernel_programming.Shared.Echo.{IsSized, process_message-race}

-- A decimal for the numbers below ten.
abbrev digit : ℕ → List ℕ
digit n = (48 + n) ∷ []

fresh_shared-IsSized : IsSized fresh_shared
fresh_shared-IsSized = length-replicate 8192 0

ones_no_nul : (n : ℕ) → ¬ Mem {A = ℕ} 0 (replicate n 1)
unfolding replicate
ones_no_nul zero m = not-mem-nil m
ones_no_nul (suc n) m =
    Or.elim ⊥_prop (eq-or-mem_of_mem-cons m) (λ e. absurd (omega (arith, e))) (ones_no_nul n)

process_message-race_example : process_message digit (λ buf. replicate 8192 1) fresh_shared ≡ none
process_message-race_example =
    process_message-race digit (replicate 8192 1) fresh_shared fresh_shared-IsSized
      (length-replicate 8192 1) (ones_no_nul 8192)

abbrev no_cdev : Answers
no_cdev = record {
  kzalloc_device = true;
  kzalloc_buffer = true;
  alloc_chrdev_region = none;
  cdev_add = some enomem;
  class_create = none;
  device_create = none;
}

-- Two lines and quit, at the fresh device.
abbrev session : List (List ℕ)
session = codes "hello\n" ∷ codes "again\n" ∷ codes "quit\n" ∷ codes "late\n" ∷ []

interactive-answers_example :
    interactive digit session fresh_shared ≡ some (answers digit 0 session)
interactive-answers_example =
    interactive-answers digit session fresh_shared (λ n. omega arith)
      (omega arith, (omega arith, (omega arith, (omega arith, tt)))) fresh_shared-IsSized

two_answers : answers digit 0 session ≡ codes "Echo #1: hello" ∷ codes "Echo #2: again" ∷ []
unfolding answers cut_line until_nul strcmp_equal
two_answers = refl
