-- ===== src/Tests/Ioctl.antt =====
-- The ioctl device and its program at the state that the initialisation leaves.
use kernel_programming.Base.{
  ℕ, ◌≡◌, refl, true, some, List, [], ◌∷◌, take, replicate, length-replicate, codes, until_nul,
}
use kernel_programming.Ioctl.{fresh_device, ioctl_demo_ioctl, ioctl_get_string, default_value}
use kernel_programming.Ioctl.Commands.{
  contents, ioctl_spec, Refines, ioctl-Refines, fresh_device-IsValid,
}
use kernel_programming.Ioctl.App.{Outcome, argument, main, test_value}
use kernel_programming.Ioctl.App.Runs.{set_string-get_string, test_all_lem}

abbrev stack : List ℕ
stack = replicate 256 7

ioctl-Refines_example :
    Refines
      (ioctl_demo_ioctl stack (argument []) fresh_device ioctl_get_string)
      (ioctl_spec (argument []) (contents fresh_device) ioctl_get_string)
ioctl-Refines_example =
    ioctl-Refines stack (argument []) fresh_device ioctl_get_string (length-replicate {A = ℕ} 256 7)
      fresh_device-IsValid

abbrev no_atoi : List ℕ → List ℕ
no_atoi text = default_value

set_string-get_string_example :
    (first : Outcome) × (second : Outcome) × (main stack [] stack no_atoi true fresh_device
        (codes "set_string" ∷ codes "abc" ∷ [])
      ≡ some first)
    × (first.ret ≡ 0)
    × (main stack [] stack no_atoi true first.device_data (codes "get_string" ∷ []) ≡ some second)
    × (second.ret ≡ 0)
    × (second.shown ≡ until_nul (take 255 (codes "abc")) ∷ [])
set_string-get_string_example =
    set_string-get_string stack [] stack no_atoi fresh_device (codes "abc")
      (length-replicate {A = ℕ} 256 7) (length-replicate {A = ℕ} 256 7) fresh_device-IsValid

test_all_lem_example :
    (o : Outcome) × (main stack default_value stack no_atoi true fresh_device
        (codes "test_all" ∷ [])
      ≡ some o)
    × (o.ret ≡ 0)
    × (o.shown
        ≡ test_value ∷ codes "Hello from user space!" ∷ default_value ∷ codes "default_string" ∷ [])
test_all_lem_example =
    test_all_lem stack default_value stack no_atoi fresh_device (length-replicate {A = ℕ} 256 7)
      refl (length-replicate {A = ℕ} 256 7) fresh_device-IsValid
