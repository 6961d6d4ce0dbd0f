-- ===== src/Tests/Handlers.antt =====
-- The greeting file, the attributes and the spin lock demo at concrete calls.
use kernel_programming.Base.{
  ℕ, ◌-◌, ◌≡◌, refl, List, [], ◌∷◌, Option, some, none, ok, codes, replicate, length-replicate,
  until_nul, arith,
}
use kernel_programming.Kernel.User.{mapped, unmapped}
use kernel_programming.Kernel.Once.{delivery}
use kernel_programming.Kernel.Input.{int_input}
use kernel_programming.Procfs.{greeting, proc_read, max_size}
use kernel_programming.Procfs.Greeting.{Call, serve_all, serve_all-greeting}
use kernel_programming.Sysfs.{Example, fresh_example, string_show, string_store}
use kernel_programming.Sysfs.Strings.{
  fresh_example-IsValid, string_show_lem, string_store-string_show,
}
use kernel_programming.Spinlock.{fresh_data}
use kernel_programming.Spinlock.Account
use kernel_programming.Tests.Decimal.{digits, digits_le, decimal, decimal-IsDecimal}

abbrev calls : List Call
calls =
    Call.write (mapped b'x') 5
    ∷ Call.read (mapped 0) 17 3 0
    ∷ Call.write unmapped 1023
    ∷ Call.write (mapped b'y') 1024
    ∷ []

serve_all-greeting_example :
    (after last : List ℕ) × (serve_all decimal calls (replicate max_size 0) ≡ some after)
    × (proc_read decimal (mapped 0) 17 3 0 after
        ≡ some (record { buffer = last; reading = delivery (mapped 0) (greeting decimal 17) }))
serve_all-greeting_example =
    serve_all-greeting decimal calls (replicate max_size 0) (mapped 0) 17 3 decimal-IsDecimal
      (length-replicate {A = ℕ} max_size 0)

default_shown : string_show fresh_example ≡ some (codes "default\n")
unfolding until_nul replicate
default_shown = string_show_lem fresh_example fresh_example-IsValid

string_store-string_show_example :
    (x : Example) × (string_store (codes "default\n") 8 fresh_example ≡ some (x, ok 8))
    × (string_show x ≡ some (codes "default\n"))
string_store-string_show_example =
    string_store-string_show fresh_example (codes "default\n") fresh_example-IsValid default_shown
      (omega arith)

-- kstrtoint for one digit.
abbrev one_digit : List ℕ → Option ℕ
one_digit (c ∷ []) = some (c - 48)
one_digit _ = none

abbrev operations_done : List Account.Call
operations_done =
    Account.write (mapped b'7') 1
    ∷ Account.read (mapped 0) (some (replicate 256 0)) 100 0
    ∷ Account.write (mapped b'x') 2
    ∷ Account.read (mapped 0) none 100 0
    ∷ []

serve_all-account_example :
    Account.serve_all one_digit decimal (digits 20) operations_done fresh_data
    ≡ some (Account.account one_digit operations_done fresh_data)
serve_all-account_example =
    Account.serve_all-account one_digit decimal (digits 20) decimal-IsDecimal (digits_le 20)
      operations_done fresh_data (length-replicate {A = ℕ} 256 0, tt) (omega arith)

two_operations :
    Account.account one_digit operations_done fresh_data
    ≡ record { shared_data = 7; operation_count = 2 }
unfolding Account.operations Account.last_value int_input until_nul replicate
two_operations = refl
