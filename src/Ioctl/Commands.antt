-- ===== src/Ioctl/Commands.antt =====
-- The commands of ioctl_test.c against a device that holds an int and a text, with no buffers.
use kernel_programming.Base.{
  ℕ, ◌+◌, ◌-◌, ◌/◌, ◌%◌, ◌≤◌, ◌≡◌, refl, ap, ◌∙◌, inl, inr, true, false, not, ◌&&◌, ◌||◌, Option,
  none, some, List, [], ◌∷◌, ◌++◌, ltb, ◌==◌, if◌then◌else◌, Bool-cases, length, take, slice,
  splice, overlay, length-take_le, length-splice, replicate, codes, strlen, strcpy, strcpy_lem,
  until_nul, IsString, take-until_nul_end, read_at-within, write_at-within, Errno, enotty, efault,
  Result, ok, err, Access, arith,
}
use kernel_programming.Kernel.User.{UserMemory}
use kernel_programming.Ioctl.{
  IoctlDevice, Argument, Answer, refuse, set_string, get_string, switch_cmd, ioctl_demo_ioctl,
  ioctl_set_value, ioctl_get_value, ioctl_set_string, ioctl_get_string, ioctl_reset, ioc_dir,
  ioc_size, ioc_type, ioc_nr, max_string_size, default_value, default_string, fresh_device,
}
use kernel_programming.Ioctl.Strings.{bounded_IsString}

pub record IsValid (dev : IoctlDevice) : Type 0 where
  pub four : length dev.value ≡ 4
  pub sized : length dev.string ≡ max_string_size
  pub terminated : IsString dev.string
  pub fits : length (until_nul dev.string) + 1 ≤ max_string_size

-- What the device is to its users.
pub record Contents : Type 0 where
  pub value : List ℕ
  pub text : List ℕ

abbrev pub contents : IoctlDevice → Contents
contents dev = record { value = dev.value; text = until_nul dev.string }

-- A command on the contents: what they become, the result, and the bytes for the user.
abbrev pub Effect : Type 0
Effect = Contents × Result ℕ × List ℕ

abbrev pub deliver : UserMemory → Contents → List ℕ → Effect
deliver u c bytes =
    if u.to_left bytes == 0
    then (c, ok 0, bytes)
    else (c, err efault, take (length bytes - u.to_left bytes) bytes)

abbrev pub set_text : Contents → Option (List ℕ) → Effect
set_text c none = (c, err efault, [])
set_text c (some s) = (record c { text = take 255 (until_nul s) }, ok 0, [])

abbrev pub serve : Argument → Contents → (cmd : ℕ) → Effect
serve arg c cmd =
    if cmd == ioctl_set_value
    then (if arg.memory.from_left 4 == 0
        then (record c { value = arg.memory.from_user 4 }, ok 0, [])
        else (c, err efault, []))
    else if cmd == ioctl_get_value
    then deliver arg.memory c c.value
    else if cmd == ioctl_set_string
    then set_text c arg.user_string
    else if cmd == ioctl_get_string
    then deliver arg.memory c (c.text ++ 0 ∷ [])
    else if cmd == ioctl_reset
    then (record { value = default_value; text = codes "default_string" }, ok 0, [])
    else (c, err enotty, [])

-- Only the five commands are looked at, and one that moves data only where access_ok accepts as
-- many bytes as the command's number says.
abbrev pub ioctl_spec : Argument → Contents → (cmd : ℕ) → Effect
ioctl_spec arg c cmd =
    if not (ioc_type cmd == b'D') || ltb 5 (ioc_nr cmd)
    then (c, err enotty, [])
    else if not (ioc_dir cmd == 0) && not (arg.access_ok (ioc_size cmd))
    then (c, err efault, [])
    else serve arg c cmd

abbrev pub Refines : Access Answer → Effect → Type 0
Refines run (c, r, out) =
    (a : Answer) × (run ≡ some a)
    × IsValid a.device_data
    × (contents a.device_data ≡ c)
    × (a.ret ≡ r)
    × (a.copied ≡ out)

refused :
    (dev : IoctlDevice) (e : Errno)
    → IsValid dev
    → Refines (some (refuse dev e)) (contents dev, err e, [])
refused dev e v = (refuse dev e, refl, v, refl, refl, refl)

set_string-Refines :
    (stack : List ℕ) (dev : IoctlDevice) (s : Option (List ℕ))
    → length stack ≡ max_string_size
    → IsValid dev
    → Refines (set_string stack dev s) (set_text (contents dev) s)
unfolding set_string
set_string-Refines stack dev none h v = refused dev efault v
set_string-Refines stack dev (some s) h v =
    let copied : List ℕ = take 255 (s ++ 0 ∷ []) in
    let short : length copied ≤ 255 = length-take_le 255 (s ++ 0 ∷ []) in
    let buf1 : List ℕ = splice 0 copied stack in
    let sized1 : length buf1 ≡ length stack = length-splice 0 copied stack in
    let buf2 : List ℕ = splice 255 (0 ∷ []) buf1 in
    let (string, text) = bounded_IsString 255 s stack (omega (arith, h)) in
    let n : length (until_nul buf2) ≤ 255 = rw text (length-take_le 255 (until_nul s)) in
    let (string', run, sized', is_string, same) =
      strcpy_lem dev.string buf2 string (omega (arith, n, v.sized)) in
    (
      record { device_data = record dev { string = string' }; ret = ok 0; copied = [] },
      rw (
        write_at-within stack 0 copied (omega (arith, h, short)),
        write_at-within buf1 255 (0 ∷ []) (omega (arith, h, sized1)),
        run,
      ),
      record {
        four = v.four;
        sized = sized' ∙ v.sized;
        terminated = is_string;
        fits = rw same (omega (arith, n));
      },
      ap (λ t. record { value = dev.value; text = t }) (same ∙ text),
      refl,
      refl,
    )

get_string-Refines :
    (u : UserMemory) (dev : IoctlDevice)
    → IsValid dev
    → Refines (get_string u dev) (deliver u (contents dev) (until_nul dev.string ++ 0 ∷ []))
unfolding get_string slice
get_string-Refines u dev v =
    let out : List ℕ = until_nul dev.string ++ 0 ∷ [] in
    let n : ℕ = length (until_nul dev.string) in
    let read = read_at-within dev.string 0 (n + 1) (omega (arith, v.fits, v.sized)) in
    let end = take-until_nul_end dev.string v.terminated in
    elim (Bool-cases (u.to_left out == 0)) [
      | inl e ↦ (
        record { device_data = dev; ret = ok 0; copied = out },
        rw (v.terminated, read, end, e),
        v,
        rw e,
        rw e,
        rw e,
      )
      | inr e ↦ (
        record {
          device_data = dev;
          ret = err efault;
          copied = take (length out - u.to_left out) out;
        },
        rw (v.terminated, read, end, e),
        v,
        rw e,
        rw e,
        rw e,
      )
    ]

default_text : until_nul default_string ≡ codes "default_string"
unfolding until_nul
default_text = refl

reset-IsValid :
    (dev : IoctlDevice)
    → IsValid dev
    → (string' : List ℕ) × (strcpy dev.string default_string ≡ some string')
      × IsValid (record { value = default_value; string = string' })
      × (until_nul string' ≡ codes "default_string")
unfolding strlen until_nul
reset-IsValid dev v =
    let (string', run, sized', is_string, same) =
      strcpy_lem dev.string default_string refl (omega (arith, v.sized)) in
    (
      string',
      run,
      record {
        four = refl;
        sized = sized' ∙ v.sized;
        terminated = is_string;
        fits = rw same (omega arith);
      },
      same,
    )

switch-Refines :
    (stack : List ℕ) (arg : Argument) (dev : IoctlDevice) (cmd : ℕ)
    → length stack ≡ max_string_size
    → IsValid dev
    → Refines (switch_cmd stack arg dev cmd) (serve arg (contents dev) cmd)
unfolding switch_cmd
switch-Refines stack arg dev cmd h v = elim (Bool-cases (cmd == ioctl_set_value)) [
  | inl c ↦ elim (Bool-cases (arg.memory.from_left 4 == 0)) [
    | inl e ↦ (
      record {
        device_data = record dev { value = arg.memory.from_user 4 };
        ret = ok 0;
        copied = [];
      },
      rw (c, e),
      record {
        four = arg.memory.length-from_user 4;
        sized = v.sized;
        terminated = v.terminated;
        fits = v.fits;
      },
      rw (c, e),
      rw (c, e),
      rw (c, e),
    )
    | inr e ↦ rw (c, e) (refused dev efault v)
  ]
  | inr c1 ↦ elim (Bool-cases (cmd == ioctl_get_value)) [
    | inl c ↦ elim (Bool-cases (arg.memory.to_left dev.value == 0)) [
      | inl e ↦ (
        record { device_data = dev; ret = ok 0; copied = dev.value },
        rw (c1, c, e),
        v,
        rw (c1, c, e),
        rw (c1, c, e),
        rw (c1, c, e),
      )
      | inr e ↦ (
        record {
          device_data = dev;
          ret = err efault;
          copied = take (length dev.value - arg.memory.to_left dev.value) dev.value;
        },
        rw (c1, c, e),
        v,
        rw (c1, c, e),
        rw (c1, c, e),
        rw (c1, c, e),
      )
    ]
    | inr c2 ↦ elim (Bool-cases (cmd == ioctl_set_string)) [
      | inl c ↦ rw (c1, c2, c) (set_string-Refines stack dev arg.user_string h v)
      | inr c3 ↦ elim (Bool-cases (cmd == ioctl_get_string)) [
        | inl c ↦ rw (c1, c2, c3, c) (get_string-Refines arg.memory dev v)
        | inr c4 ↦ elim (Bool-cases (cmd == ioctl_reset)) [
          | inl c ↦
              let (string', run, v', same) = reset-IsValid dev v in
              (
                record {
                  device_data = record { value = default_value; string = string' };
                  ret = ok 0;
                  copied = [];
                },
                rw (c1, c2, c3, c4, c, run),
                v',
                rw (c1, c2, c3, c4, c, same),
                rw (c1, c2, c3, c4, c),
                rw (c1, c2, c3, c4, c),
              )
          | inr c5 ↦ rw (c1, c2, c3, c4, c5) (refused dev enotty v)
        ]
      ]
    ]
  ]
]

-- Whatever the command and its argument, and whatever the stack held before: on a valid device no
-- access is outside a buffer, the device stays valid, and the call does what the commands mean for
-- an int and a text: the text that is set is the user's string, cut after 255 bytes. A call that
-- reports an error has changed nothing, and it has delivered nothing, except where copy_to_user fails:
-- then the user has the first bytes, as many as were copied.
pub ioctl-Refines :
    (stack : List ℕ) (arg : Argument) (dev : IoctlDevice) (cmd : ℕ)
    → length stack ≡ max_string_size
    → IsValid dev
    → Refines (ioctl_demo_ioctl stack arg dev cmd) (ioctl_spec arg (contents dev) cmd)
unfolding ioctl_demo_ioctl
ioctl-Refines stack arg dev cmd h v = elim (Bool-cases (ioc_type cmd == b'D')) [
  | inr t ↦ rw t (refused dev enotty v)
  | inl t ↦ elim (Bool-cases (ltb 5 (ioc_nr cmd))) [
    | inl n ↦ rw (t, n) (refused dev enotty v)
    | inr n ↦ elim (Bool-cases (arg.access_ok (ioc_size cmd))) [
      | inl a ↦
          let reads : ((ioc_dir cmd / 2 == 1) && not (arg.access_ok (ioc_size cmd))) ≡ false =
            ground arith in
          let writes : ((ioc_dir cmd % 2 == 1) && not (arg.access_ok (ioc_size cmd))) ≡ false =
            ground arith in
          let moves : (not (ioc_dir cmd == 0) && not (arg.access_ok (ioc_size cmd))) ≡ false =
            ground arith in
          rw (t, n, reads, writes, moves) (switch-Refines stack arg dev cmd h v)
      | inr a ↦ elim (Bool-cases (ioc_dir cmd == 0)) [
        | inl d ↦
            let reads : (ioc_dir cmd / 2 == 1) ≡ false = ground arith in
            let writes : (ioc_dir cmd % 2 == 1) ≡ false = ground arith in
            rw (t, n, reads, writes, d) (switch-Refines stack arg dev cmd h v)
        | inr d ↦ elim (Bool-cases (ioc_dir cmd / 2 == 1)) [
          | inl r ↦ rw (t, n, r, a, d) (refused dev efault v)
          | inr r ↦
              let writes : (ioc_dir cmd % 2 == 1) ≡ true = ground arith in
              rw (t, n, r, writes, a, d) (refused dev efault v)
        ]
      ]
    ]
  ]
]

pub fresh_device-IsValid : IsValid fresh_device
unfolding strlen until_nul splice overlay replicate
fresh_device-IsValid = record { four = refl; sized = refl; terminated = refl; fits = omega arith }
