-- ===== src/Kernel/Buffer.antt =====
-- The bytes of the array into which a handler copies what a user writes, such as `char input[32]`, for
-- the texts of Kernel/Input: the copy, the NUL behind it, and the string that is then read.
use kernel_programming.Base.{
  ℕ, ◌+◌, ◌≤◌, ◌<◌, ◌≡◌, inl, inr, some, List, [], ◌∷◌, ◌++◌, leb, ◌==◌, if◌then◌else◌, not, length,
  take, take-until_nul, until_nul, until_nul-append, until_nul-splice, strlen, strlen-until_nul,
  splice, length-splice, slice-splice_self, write_at, write_at-within, Access, ◌>>=◌, Result, ok,
  err, einval, efault, Bool-cases, arith,
}
use kernel_programming.Kernel.User.{UserMemory}

abbrev terminated_text : (count : ℕ) (buffer : List ℕ) → Access (List ℕ)
terminated_text count buffer = do
  buffer ← write_at buffer count (0 ∷ [])
  n ← strlen buffer
  some (take n buffer)

-- `stack` is what the array holds before.
unfoldable pub input_bytes :
    (size : ℕ) (stack : List ℕ) → UserMemory → (count : ℕ) → Access (Result (List ℕ))
input_bytes size stack u count = if leb size count then some (err einval) else (do
  buffer ← write_at stack 0 (u.from_user count)
  (if not (u.from_left count == 0)
      then some (err efault)
      else (terminated_text count buffer >>= λ text. some (ok text))))

terminated_text_lem :
    (count : ℕ) (bytes stack : List ℕ)
    → length bytes ≡ count
    → count < length stack
    → terminated_text count (splice 0 bytes stack) ≡ some (until_nul bytes)
terminated_text_lem count bytes stack n room =
    let buf : List ℕ = splice 0 bytes stack in
    let sized : length buf ≡ length stack = length-splice 0 bytes stack in
    let nul : List ℕ = 0 ∷ [] in
    let fits : count + length nul ≤ length buf = omega (arith, sized) in
    let buf' : List ℕ = splice count (0 ∷ []) buf in
    let (string, _) = strlen-until_nul count buf' (slice-splice_self count (0 ∷ []) buf fits) in
    let text : until_nul buf' ≡ until_nul bytes =
      until_nul-splice count bytes stack n (omega (arith, room)) in
    rw (write_at-within buf count (0 ∷ []) fits, string, take-until_nul buf', text)

-- In an array of `size` bytes, whatever it held: no access is outside it, and the text that is read is
-- what the user wrote, up to a NUL.
pub input_bytes-until_nul :
    (size : ℕ) (stack : List ℕ) (u : UserMemory) (count : ℕ)
    → length stack ≡ size
    → input_bytes size stack u count
      ≡ some (
          if leb size count
          then err einval
          else if not (u.from_left count == 0)
          then err efault
          else ok (until_nul (u.from_user count ++ 0 ∷ [])))
unfolding input_bytes
input_bytes-until_nul size stack u count h = elim (Bool-cases (leb size count)) [
  | inl long ↦ rw long
  | inr under ↦
      let short : count < size = ground arith in
      let n = u.length-from_user count in
      let fits : 0 + length (u.from_user count) ≤ length stack = omega (arith, h, n, short) in
      let copy = write_at-within stack 0 (u.from_user count) fits in
      let text = terminated_text_lem count (u.from_user count) stack n (omega (arith, h, short)) in
      elim (Bool-cases (u.from_left count == 0)) [
        | inl e ↦ rw (under, copy, e, text, until_nul-append (u.from_user count) [])
        | inr e ↦ rw (under, copy, e)
      ]
]
