-- ===== src/Kernel/Once.antt =====
-- Files whose whole text one read delivers: the handler prints the text to a buffer, copies it to
-- the user whatever the count asked for, and reports the end of the file at any later position.
use kernel_programming.Base.{
  ℕ, ◌+◌, ◌-◌, ◌≤◌, ◌<◌, ◌≡◌, refl, sym, ap, ◌∙◌, some, List, [], ◌∷◌, ◌++◌, length, take, drop,
  take_all, length-append, length-take_le, splice, overlay-append_drop, append_assoc, read_at,
  write_at, read_at-within, write_at-within, slice, length-splice, ◌==◌, if◌then◌else◌, Access,
  ◌>>=◌, arith, Result, ok, err, efault,
}
use kernel_programming.Kernel.User.{UserMemory}
use kernel_programming.Kernel.Reading.{Reading}

-- snprintf(dst, size, ..) of a text, for a size above 0: what fits is written, and a NUL. (Its
-- result is the length of the text, cut or not.)
unfoldable pub snprintf : (dst : List ℕ) (size : ℕ) (text : List ℕ) → Access (List ℕ)
snprintf dst size text = write_at dst 0 (take (size - 1) text ++ 0 ∷ [])

-- What stands in the buffer, and the read.
pub record Once : Type 0 where
  pub buffer : List ℕ
  pub reading : Reading

abbrev pub at_end : (pos : ℕ) → Reading
at_end pos = record { result = ok 0; pos = pos; delivered = [] }

abbrev pub failing : (pos : ℕ) → Result ℕ → Reading
failing pos r = record { result = r; pos = pos; delivered = [] }

-- copy_to_user and the move of the position, from position 0.
abbrev pub delivery : UserMemory → List ℕ → Reading
delivery u bytes =
    if u.to_left bytes == 0
    then record { result = ok (length bytes); pos = length bytes; delivered = bytes }
    else failing 0 (err efault)

unfoldable pub print_once : (size : ℕ) → UserMemory → (buffer text : List ℕ) → Access Once
print_once size u buffer text = do
  buffer ← snprintf buffer size text
  bytes ← read_at buffer 0 (length text)
  some (record { buffer = buffer; reading = delivery u bytes })

-- A buffer of `size` bytes after snprintf: a string, of the text as far as it fits.
pub snprintf_lem :
    (dst : List ℕ) (size : ℕ) (text : List ℕ)
    → 0 < size
    → length dst ≡ size
    → (snprintf dst size text
        ≡ some (take (size - 1) text ++ 0 ∷ drop (length (take (size - 1) text) + 1) dst))
      × (length (take (size - 1) text ++ 0 ∷ drop (length (take (size - 1) text) + 1) dst) ≡ size)
unfolding snprintf splice
snprintf_lem dst size text some_room sized =
    let cut : List ℕ = take (size - 1) text in
    let short : length cut ≤ size - 1 = length-take_le (size - 1) text in
    let n : length (cut ++ 0 ∷ []) ≡ length cut + 1 = length-append cut (0 ∷ []) in
    let same : splice 0 (cut ++ 0 ∷ []) dst ≡ cut ++ 0 ∷ drop (length cut + 1) dst =
      overlay-append_drop (cut ++ 0 ∷ []) dst (omega arith)
      ∙ append_assoc cut (0 ∷ []) (drop (length (cut ++ 0 ∷ [])) dst)
      ∙ ap (λ k. cut ++ 0 ∷ drop k dst) n in
    (
      write_at-within dst 0 (cut ++ 0 ∷ []) (omega arith) ∙ ap some same,
      ap length (sym same) ∙ length-splice 0 (cut ++ 0 ∷ []) dst ∙ sized,
    )

front : (xs ys : List ℕ) → slice 0 (length xs) (xs ++ ys) ≡ xs
unfolding slice
front [] ys = refl
front (x ∷ xs) ys = ap (◌∷◌ x) (front xs ys)

-- A text that fits, with its NUL, is delivered whole, out of a buffer that keeps its size.
pub print_once_lem :
    (size : ℕ) (u : UserMemory) (buffer text : List ℕ)
    → length buffer ≡ size
    → length text < size
    → (buffer' : List ℕ) × (print_once size u buffer text
        ≡ some (record { buffer = buffer'; reading = delivery u text }))
      × (length buffer' ≡ size)
unfolding print_once
print_once_lem size u buffer text sized fits =
    let whole : take (size - 1) text ≡ text = take_all (size - 1) text (omega arith) in
    let buffer' : List ℕ = text ++ 0 ∷ drop (length text + 1) buffer in
    let (printed, kept) = snprintf_lem buffer size text (omega arith) sized in
    let printed : snprintf buffer size text ≡ some buffer' =
      printed ∙ ap (λ t. some (t ++ 0 ∷ drop (length t + 1) buffer)) whole in
    let kept : length buffer' ≡ size =
      ap (λ t. length (t ++ 0 ∷ drop (length t + 1) buffer)) (sym whole) ∙ kept in
    let out : read_at buffer' 0 (length text) ≡ some text =
      read_at-within buffer' 0 (length text) (omega arith)
      ∙ ap some (front text (0 ∷ drop (length text + 1) buffer)) in
    (buffer', rw (printed, out), kept)
