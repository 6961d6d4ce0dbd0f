-- ===== src/Shared/Echo.antt =====
-- The answer that shared_memory_demo.c writes for the user's message.
use kernel_programming.Base.{
  length-take_le, ℕ, zero, suc, ◌+◌, ◌%◌, ◌^◌, ◌≤◌, ◌<◌, ◌≡◌, refl, subst, ◌∙◌, inl, inr, none,
  some, List, [], ◌∷◌, ◌++◌, append_assoc, ◌==◌, length, take, drop, length-append, length-drop,
  strlen, until_nul, length-until_nul, until_nul-append, overlay-append_drop, overlay, splice,
  write_at-within, length-splice, arith, Bool-cases,
}
use mathlib.Core.List.{Mem, mem-cons_self, mem-cons_of_mem}
use kernel_programming.Shared.{SharedMemDevice, strnlen, echo, process_message, buffer_size}

abbrev pub IsSized : SharedMemDevice → Type 0
IsSized dev = length dev.shared_buffer ≡ buffer_size

strnlen_lem :
    (n : ℕ) (cs : List ℕ) → n ≤ length cs → strnlen n cs ≡ some (length (until_nul (take n cs)))
unfolding strnlen until_nul
strnlen_lem zero cs h = refl
strnlen_lem (suc n) [] h = absurd (omega arith)
strnlen_lem (suc n) (c ∷ cs) h = elim (Bool-cases (c == 0)) [
  | inl e ↦ rw e
  | inr e ↦ rw (strnlen_lem n cs (omega arith), e)
]

-- The string that a NUL behind the first `n` bytes, or at an earlier one, leaves.
terminated :
    (n : ℕ) (cs : List ℕ)
    → n < length cs
    → (strlen (splice (length (until_nul (take n cs))) (0 ∷ []) cs)
        ≡ some (length (until_nul (take n cs))))
      × (take (length (until_nul (take n cs))) (splice (length (until_nul (take n cs))) (0 ∷ []) cs)
          ≡ until_nul (take n cs))
unfolding until_nul splice overlay strlen
terminated zero [] h = absurd (omega arith)
terminated zero (c ∷ cs) h = (refl, refl)
terminated (suc n) [] h = absurd (omega arith)
terminated (suc n) (c ∷ cs) h = elim (Bool-cases (c == 0)) [
  | inl e ↦ (rw e, rw e)
  | inr e ↦ let (len, text) = terminated n cs (omega arith) in (rw (e, e, len), rw (e, text))
]

drop-splice_at {ℓ} :
    {A : Type ℓ} (o : ℕ) (src dst : List A) → drop o (splice o src dst) ≡ overlay src (drop o dst)
unfolding splice overlay
drop-splice_at zero src dst = refl
drop-splice_at (suc o) [] [] = refl
drop-splice_at (suc o) (s ∷ src) [] = refl
drop-splice_at (suc o) src (d ∷ dst) = drop-splice_at o src dst

-- A string and a NUL, written somewhere, are read back from there.
string_at :
    (o : ℕ) (cs dst : List ℕ)
    → o + (length cs + 1) ≤ length dst
    → until_nul (drop o (splice o (cs ++ 0 ∷ []) dst)) ≡ until_nul cs
string_at o cs dst h =
    let n : length (cs ++ 0 ∷ []) ≡ length cs + 1 = length-append cs (0 ∷ []) in
    rw
      (
        drop-splice_at o (cs ++ 0 ∷ []) dst,
        overlay-append_drop (cs ++ 0 ∷ []) (drop o dst) (omega (arith, n, length-drop o dst)),
        append_assoc,
      )
      (until_nul-append cs (drop (length (cs ++ 0 ∷ [])) (drop o dst)))

-- Where the user leaves the buffer alone during the call: no access is outside it, the messages are
-- counted, and the string that the user then finds in the second half is the echo of the string in
-- the first half, where that is cut after 4095 bytes, and so is the echo.
pub process_message_lem :
    (print_lu : ℕ → List ℕ) (dev : SharedMemDevice)
    → IsSized dev
    → (dev' : SharedMemDevice) × (process_message print_lu (λ buf. buf) dev ≡ some dev')
      × IsSized dev'
      × (dev'.msg_count ≡ (dev.msg_count + 1) % 2 ^ 64)
      × (until_nul (drop 4096 dev'.shared_buffer)
          ≡ until_nul
              (take 4095 (echo print_lu dev'.msg_count (until_nul (take 4095 dev.shared_buffer)))))
unfolding process_message
process_message_lem print_lu dev sized =
    let buf : List ℕ = dev.shared_buffer in
    let msg : List ℕ = until_nul (take 4095 buf) in
    let count : ℕ = (dev.msg_count + 1) % 2 ^ 64 in
    let buf1 : List ℕ = splice (length msg) (0 ∷ []) buf in
    let text : List ℕ = take 4095 (echo print_lu count msg) in
    let short : length msg ≤ 4095 =
      omega (arith, length-until_nul (take 4095 buf), length-take_le 4095 buf) in
    let sized1 : length buf1 ≡ length buf = length-splice (length msg) (0 ∷ []) buf in
    let (len, same) = terminated 4095 buf (omega (arith, sized)) in
    let fits : length text ≤ 4095 = length-take_le 4095 (echo print_lu count msg) in
    let n : length (text ++ 0 ∷ []) ≡ length text + 1 = length-append text (0 ∷ []) in
    (
      record { shared_buffer = splice 4096 (text ++ 0 ∷ []) buf1; msg_count = count },
      rw (
        strnlen_lem 4095 buf (omega (arith, sized)),
        write_at-within buf (length msg) (0 ∷ []) (omega (arith, sized, short)),
        len,
        same,
        write_at-within buf1 4096 (text ++ 0 ∷ []) (omega (arith, n, fits, sized, sized1)),
      ),
      length-splice 4096 (text ++ 0 ∷ []) buf1 ∙ sized1 ∙ sized,
      refl,
      string_at 4096 text buf1 (omega (arith, fits, sized, sized1)),
    )

strlen-none : (cs : List ℕ) → ¬ Mem 0 cs → strlen cs ≡ none
unfolding strlen
strlen-none [] h = refl
strlen-none (c ∷ cs) h = elim (Bool-cases (c == 0)) [
  | inl e ↦
      let nul : 0 ≡ c = ground arith in absurd (h (subst (λ x. Mem 0 (x ∷ cs)) nul mem-cons_self))
  | inr e ↦ let rest = strlen-none cs (λ m. h (mem-cons_of_mem c m)) in rw (e, rest)
]

-- Where the user stores 8192 bytes that are not NUL over the whole buffer while the call has already
-- terminated the message, the call reads behind the end of the buffer.
pub process_message-race :
    (print_lu : ℕ → List ℕ) (filled : List ℕ) (dev : SharedMemDevice)
    → IsSized dev
    → length filled ≡ buffer_size
    → ¬ Mem 0 filled
    → process_message print_lu (λ buf. filled) dev ≡ none
unfolding process_message
process_message-race print_lu filled dev sized whole no_nul =
    let buf : List ℕ = dev.shared_buffer in
    let msg : List ℕ = until_nul (take 4095 buf) in
    let short : length msg ≤ 4095 =
      omega (arith, length-until_nul (take 4095 buf), length-take_le 4095 buf) in
    rw (
      strnlen_lem 4095 buf (omega (arith, sized)),
      write_at-within buf (length msg) (0 ∷ []) (omega (arith, sized, short)),
      strlen-none filled no_nul,
    )
