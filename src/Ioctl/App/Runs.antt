-- ===== src/Ioctl/App/Runs.antt =====
-- Runs of the program ioctl_app.c against the driver of ioctl_test.c.
use kernel_programming.Base.{
  ℕ, ◌+◌, ◌≤◌, ◌≡◌, refl, ap, ◌∙◌, true, none, some, List, [], ◌∷◌, ◌++◌, length, take, take_all,
  length-take_le, drop, length-replicate, length-append, overlay, overlay-append_drop, append_assoc,
  until_nul, until_nul-append, until_nul_twice, length-until_nul, strcmp_equal, codes, ok, Access,
  ◌>>=◌, arith,
}
use kernel_programming.Ioctl.{
  IoctlDevice, ioctl_set_value, ioctl_get_value, ioctl_set_string, ioctl_get_string, ioctl_reset,
  default_value, max_string_size,
}
use kernel_programming.Ioctl.Commands.{IsValid, Contents, contents, ioctl_spec, ioctl-Refines}
use kernel_programming.Ioctl.App.{
  Outcome, argument, setting, getting, done, main, whole, test_value, zeros, test_value_operations,
  test_string_operations, test_reset_operation,
}

setting_lem :
    (stack : List ℕ) (dev : IoctlDevice) (cmd : ℕ) (bytes : List ℕ)
    (next : IoctlDevice → Access Outcome) (c : Contents)
    → length stack ≡ max_string_size
    → IsValid dev
    → ioctl_spec (argument bytes) (contents dev) cmd ≡ (c, ok 0, [])
    → (dev' : IoctlDevice) × (setting stack dev cmd bytes next ≡ next dev')
      × IsValid dev'
      × (contents dev' ≡ c)
setting_lem stack dev cmd bytes next c h v e =
    let (a, run, valid, now, ret, out) = ioctl-Refines stack (argument bytes) dev cmd h v in
    let success : a.ret ≡ ok 0 = ret ∙ ap (λ x. x.1) e in
    (a.device_data, rw (run, success), valid, now ∙ ap (λ x. x.0) e)

getting_lem :
    (stack : List ℕ) (dev : IoctlDevice) (cmd : ℕ) (buffer : List ℕ) (print : List ℕ → List ℕ)
    (next : IoctlDevice → Access Outcome) (c : Contents) (bytes : List ℕ)
    → length stack ≡ max_string_size
    → IsValid dev
    → ioctl_spec (argument buffer) (contents dev) cmd ≡ (c, ok 0, bytes)
    → (dev' : IoctlDevice) × (getting stack dev cmd buffer print next
        ≡ (next dev' >>= λ o. some (record o { shown = print (overlay bytes buffer) ∷ o.shown })))
      × IsValid dev'
      × (contents dev' ≡ c)
unfolding overlay
getting_lem stack dev cmd buffer print next c bytes h v e =
    let (a, run, valid, now, ret, out) = ioctl-Refines stack (argument buffer) dev cmd h v in
    let success : a.ret ≡ ok 0 = ret ∙ ap (λ x. x.1) e in
    let copied : a.copied ≡ bytes = out ∙ ap (λ x. x.2) e in
    (a.device_data, rw (run, success, copied), valid, now ∙ ap (λ x. x.0) e)

-- A text with its NUL, written over a buffer that has room, is printed as the text.
printed :
    (text buffer : List ℕ)
    → length text + 1 ≤ length buffer
    → until_nul (overlay (text ++ 0 ∷ []) buffer) ≡ until_nul text
printed text buffer room =
    let n : length (text ++ 0 ∷ []) ≡ length text + 1 = length-append text (0 ∷ []) in
    rw (overlay-append_drop (text ++ 0 ∷ []) buffer (omega (arith, n)), append_assoc)
      (until_nul-append text (drop (length (text ++ 0 ∷ [])) buffer))

-- An int of four bytes, written over an int.
replaced : (bytes buffer : List ℕ) → length bytes ≡ length buffer → overlay bytes buffer ≡ bytes
unfolding overlay
replaced [] [] h = refl
replaced [] (b ∷ buffer) h = absurd (omega arith)
replaced (c ∷ bytes) [] h = absurd (omega arith)
replaced (c ∷ bytes) (b ∷ buffer) h = ap (◌∷◌ c) (replaced bytes buffer (omega arith))

-- A part of the program, with what an earlier part has shown in front.
abbrev before : List (List ℕ) → Access Outcome → Access Outcome
before shown m = m >>= λ o. some (record o { shown = shown ++ o.shown })

before-before :
    (x y : List ℕ) (m : Access Outcome)
    → before (x ∷ []) (before (y ∷ []) m) ≡ before (x ∷ y ∷ []) m
before-before x y none = refl
before-before x y (some o) = refl

abbrev Shows :
    Access Outcome → (IoctlDevice → Access Outcome) → IoctlDevice → List (List ℕ) → Type 0
Shows run next dev' shown = run ≡ before shown (next dev')

value_shown :
    (stack : List ℕ) (dev : IoctlDevice) (next : IoctlDevice → Access Outcome)
    → length stack ≡ max_string_size
    → IsValid dev
    → (dev' : IoctlDevice) × Shows
        (test_value_operations stack next dev)
        next
        dev'
        (test_value ∷ [])
      × IsValid dev'
unfolding test_value_operations
value_shown stack dev next h v =
    let later : IoctlDevice → Access Outcome =
      λ dev. getting stack dev ioctl_get_value (zeros 4) whole next in
    let (d1, run1, v1, e1) =
      setting_lem stack dev ioctl_set_value test_value later
        (record (contents dev) { value = test_value }) h v refl in
    let (d2, run2, v2, e2) =
      getting_lem stack d1 ioctl_get_value (zeros 4) whole next (contents d1) d1.value h v1 refl in
    let set : d1.value ≡ test_value = ap (λ c. c.value) e1 in
    let text : overlay d1.value (zeros 4) ≡ test_value =
      replaced d1.value (zeros 4) (omega (arith, v1.four, length-replicate {A = ℕ} 4 0)) ∙ set in
    (d2, run1 ∙ run2 ∙ ap (λ x. before (x ∷ []) (next d2)) text, v2)

string_shown :
    (stack : List ℕ) (dev : IoctlDevice) (next : IoctlDevice → Access Outcome)
    → length stack ≡ max_string_size
    → IsValid dev
    → (dev' : IoctlDevice) × Shows
        (test_string_operations stack next dev)
        next
        dev'
        (codes "Hello from user space!" ∷ [])
      × IsValid dev'
unfolding test_string_operations until_nul
string_shown stack dev next h v =
    let later : IoctlDevice → Access Outcome =
      λ dev. getting stack dev ioctl_get_string (zeros 256) until_nul next in
    let (d1, run1, v1, e1) =
      setting_lem stack dev ioctl_set_string (codes "Hello from user space!") later
        (record (contents dev) { text = codes "Hello from user space!" }) h v refl in
    let (d2, run2, v2, e2) =
      getting_lem stack d1 ioctl_get_string (zeros 256) until_nul next (contents d1)
        (until_nul d1.string ++ 0 ∷ []) h v1 refl in
    let set : until_nul d1.string ≡ codes "Hello from user space!" = ap (λ c. c.text) e1 in
    let print =
      printed (until_nul d1.string) (zeros 256)
        (omega (arith, v1.fits, length-replicate {A = ℕ} 256 0)) in
    let text : until_nul (overlay (until_nul d1.string ++ 0 ∷ []) (zeros 256))
        ≡ codes "Hello from user space!" =
      print ∙ until_nul_twice d1.string ∙ set in
    (d2, run1 ∙ run2 ∙ ap (λ x. before (x ∷ []) (next d2)) text, v2)

reset_shown :
    (stack value string : List ℕ) (dev : IoctlDevice) (next : IoctlDevice → Access Outcome)
    → length stack ≡ max_string_size
    → length value ≡ 4
    → length string ≡ max_string_size
    → IsValid dev
    → (dev' : IoctlDevice) × Shows
        (test_reset_operation stack value string next dev)
        next
        dev'
        (default_value ∷ codes "default_string" ∷ [])
      × IsValid dev'
unfolding test_reset_operation
reset_shown stack value string dev next h four room v =
    let last : IoctlDevice → Access Outcome =
      λ dev. getting stack dev ioctl_get_string string until_nul next in
    let later : IoctlDevice → Access Outcome =
      λ dev. getting stack dev ioctl_get_value value whole last in
    let (d1, run1, v1, e1) =
      setting_lem stack dev ioctl_reset [] later
        (record { value = default_value; text = codes "default_string" }) h v refl in
    let (d2, run2, v2, e2) =
      getting_lem stack d1 ioctl_get_value value whole last (contents d1) d1.value h v1 refl in
    let (d3, run3, v3, e3) =
      getting_lem stack d2 ioctl_get_string string until_nul next (contents d2)
        (until_nul d2.string ++ 0 ∷ []) h v2 refl in
    let set_value : d1.value ≡ default_value = ap (λ c. c.value) e1 in
    let set_text : until_nul d2.string ≡ codes "default_string" =
      ap (λ c. c.text) e2 ∙ ap (λ c. c.text) e1 in
    let print = printed (until_nul d2.string) string (omega (arith, v2.fits, room)) in
    let whole_value : overlay d1.value value ≡ default_value =
      replaced d1.value value (omega (arith, v1.four, four)) ∙ set_value in
    let text : until_nul (overlay (until_nul d2.string ++ 0 ∷ []) string) ≡ codes "default_string" =
      print ∙ until_nul_twice d2.string ∙ set_text in
    (
      d3,
      run1
          ∙ run2
          ∙ ap (before (overlay d1.value value ∷ [])) run3
          ∙ before-before (overlay d1.value value)
              (until_nul (overlay (until_nul d2.string ++ 0 ∷ []) string)) (next d3)
          ∙ ap
              (λ x.
                before (x ∷ until_nul (overlay (until_nul d2.string ++ 0 ∷ []) string) ∷ [])
                  (next d3))
              whole_value
          ∙ ap (λ x. before (default_value ∷ x ∷ []) (next d3)) text,
      v3,
    )

-- A string that one run of the program sets is what a later run prints: its first 255 bytes.
-- Both runs report success, whatever their buffers and the driver's stack held.
pub set_string-get_string :
    (stack value string : List ℕ) (atoi : List ℕ → List ℕ) (dev : IoctlDevice) (text : List ℕ)
    → length stack ≡ max_string_size
    → length string ≡ max_string_size
    → IsValid dev
    → (first : Outcome) × (second : Outcome) × (main stack value string atoi true dev
          (codes "set_string" ∷ text ∷ [])
        ≡ some first)
      × (first.ret ≡ 0)
      × (main stack value string atoi true first.device_data (codes "get_string" ∷ [])
          ≡ some second)
      × (second.ret ≡ 0)
      × (second.shown ≡ until_nul (take 255 text) ∷ [])
unfolding main strcmp_equal
set_string-get_string stack value string atoi dev text h room v =
    let kept : List ℕ = until_nul (take 255 text) in
    let short : length kept ≤ 255 =
      omega (arith, length-until_nul (take 255 text), length-take_le 255 text) in
    let (d1, run1, v1, e1) =
      setting_lem stack dev ioctl_set_string (take 255 text) done
        (record (contents dev) { text = take 255 kept }) h v refl in
    let (d2, run2, v2, e2) =
      getting_lem stack d1 ioctl_get_string string until_nul done (contents d1)
        (until_nul d1.string ++ 0 ∷ []) h v1 refl in
    let set : until_nul d1.string ≡ kept = ap (λ c. c.text) e1 ∙ take_all 255 kept short in
    let print = printed (until_nul d1.string) string (omega (arith, v1.fits, room)) in
    (
      record { device_data = d1; ret = 0; shown = [] },
      record {
        device_data = d2;
        ret = 0;
        shown = until_nul (overlay (until_nul d1.string ++ 0 ∷ []) string) ∷ [];
      },
      run1,
      refl,
      run2,
      refl,
      ap (λ l. l ∷ []) (print ∙ ap until_nul set ∙ until_nul_twice (take 255 text)),
    )

-- `test_all` on any valid device: every step succeeds, and what is printed is the value and the
-- string that were set, and the defaults after the reset.
pub test_all_lem :
    (stack value string : List ℕ) (atoi : List ℕ → List ℕ) (dev : IoctlDevice)
    → length stack ≡ max_string_size
    → length value ≡ 4
    → length string ≡ max_string_size
    → IsValid dev
    → (o : Outcome) × (main stack value string atoi true dev (codes "test_all" ∷ []) ≡ some o)
      × (o.ret ≡ 0)
      × (o.shown
          ≡ test_value
            ∷ codes "Hello from user space!"
            ∷ default_value
            ∷ codes "default_string"
            ∷ [])
unfolding main strcmp_equal
test_all_lem stack value string atoi dev h four room v =
    let third : IoctlDevice → Access Outcome = test_reset_operation stack value string done in
    let (d1, run1, v1) = value_shown stack dev (test_string_operations stack third) h v in
    let (d2, run2, v2) = string_shown stack d1 third h v1 in
    let (d3, run3, v3) = reset_shown stack value string d2 done h four room v2 in
    (
      record {
        device_data = d3;
        ret = 0;
        shown =
            test_value
            ∷ codes "Hello from user space!"
            ∷ default_value
            ∷ codes "default_string"
            ∷ [];
      },
      run1
          ∙ ap (before (test_value ∷ []))
              (run2 ∙ ap (before (codes "Hello from user space!" ∷ [])) run3),
      refl,
      refl,
    )
