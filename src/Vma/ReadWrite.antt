-- ===== src/Vma/ReadWrite.antt =====
-- Reading and writing the buffer of the VMA device at a file position.
use kernel_programming.Base.{
  ℕ, ◌+◌, ◌-◌, ◌%◌, ◌^◌, ◌≤◌, ◌<◌, ◌≡◌, inl, inr, ◌∙◌, false, some, List, length, take, drop, arith,
  slice, splice, length-splice, slice-splice_self, ltb, leb, lt→leb, write_at-within,
  read_at-within, ok, err, efault, enospc, Bool-cases, ◌==◌, if◌then◌else◌,
}
use kernel_programming.Kernel.User.{UserMemory, max_rw_count}
use kernel_programming.Kernel.Reading.{read_spec, clamped}
use kernel_programming.Vma.{SimpleVmaDev, example_char_read, example_char_write, buffer_size}
use kernel_programming.Vma.Loading.{IsIdle}

-- A read that waits for the mutex without a signal, of at most the count that the VFS lets through,
-- at any position and whatever the user's buffer answers: it delivers what `read_spec` says of the
-- buffer, leaves the device as it was, and has released the mutex on every path.
pub char_read-read_spec :
    (u : UserMemory) (dev : SimpleVmaDev) (count pos : ℕ)
    → IsIdle dev
    → count ≤ max_rw_count
    → example_char_read u false dev count pos ≡ some (dev, read_spec u dev.bytes count pos)
unfolding example_char_read read_spec
char_read-read_spec u dev count pos idle few = elim (Bool-cases (leb buffer_size pos)) [
  | inl out ↦ rw (out, idle.sized, out) (ground arith)
  | inr inside ↦
      let n : ℕ = if ltb buffer_size (pos + count) then buffer_size - pos else count in
      let lt : pos < length dev.bytes = ground (arith, idle.sized) in
      let (same, len, fits) = clamped dev.bytes count pos n lt (rw idle.sized) in
      let wrap : (pos + count) % 2 ^ 64 ≡ pos + count = omega arith in
      let wrap' : (pos + n) % 2 ^ 64 ≡ pos + n = omega arith in
      rw (inside, wrap, read_at-within dev.bytes pos n fits, same, idle.sized, inside, len, wrap')
        (ground arith)
]

-- The bytes that a write accepts at `pos`.
abbrev pub accepted : (count pos : ℕ) → ℕ
accepted count pos = if ltb buffer_size (pos + count) then buffer_size - pos else count

accepted-le : (count pos : ℕ) → pos < buffer_size → pos + accepted count pos ≤ buffer_size
accepted-le count pos h = ground arith

-- A write of at most the count that the VFS lets through to the idle device, whatever the user's
-- buffer answers. At or behind the end of the buffer the result is -ENOSPC and nothing changes.
-- Before it, exactly the bytes from `pos` on that the count and the end of the buffer allow are
-- overwritten; the result is their number and the position moves behind them, or -EFAULT with the
-- position unmoved where they could not all be copied. On every path the mutex is released.
pub char_write_lem :
    (u : UserMemory) (dev : SimpleVmaDev) (count pos : ℕ)
    → IsIdle dev
    → count ≤ max_rw_count
    → example_char_write u false dev count pos
      ≡ some (
          if leb buffer_size pos then (dev, record { result = err enospc; pos = pos }) else (
            record dev { bytes = splice pos (u.from_user (accepted count pos)) dev.bytes },
            if u.from_left (accepted count pos) == 0
                then record { result = ok (accepted count pos); pos = pos + accepted count pos }
                else record { result = err efault; pos = pos },
          ))
unfolding example_char_write
char_write_lem u dev count pos idle few = elim (Bool-cases (leb buffer_size pos)) [
  | inl out ↦ rw out (ground arith)
  | inr inside ↦
      let n : ℕ = accepted count pos in
      let fits : pos + n ≤ buffer_size = accepted-le count pos (ground arith) in
      let wrap : (pos + count) % 2 ^ 64 ≡ pos + count = omega arith in
      let wrap' : (pos + n) % 2 ^ 64 ≡ pos + n = omega arith in
      let inside' : pos + length (u.from_user n) ≤ length dev.bytes =
        omega (arith, u.length-from_user n, idle.sized) in
      rw (inside, wrap, write_at-within dev.bytes pos (u.from_user n) inside', wrap') (ground arith)
]

-- On the idle device, a write before the end of the buffer whose bytes could be copied, and then a
-- read at the same position of as many bytes as the write reported, into a buffer that takes them:
-- the read delivers the bytes that were written, and both leave the same position.
pub char_read-char_write :
    (u r : UserMemory) (dev : SimpleVmaDev) (count pos : ℕ)
    → IsIdle dev
    → count ≤ max_rw_count
    → pos < buffer_size
    → u.from_left (accepted count pos) ≡ 0
    → r.to_left (u.from_user (accepted count pos)) ≡ 0
    → (dev' : SimpleVmaDev) × (end : ℕ) × (example_char_write u false dev count pos
        ≡ some (dev', record { result = ok (accepted count pos); pos = end }))
      × (example_char_read r false dev' (accepted count pos) pos
          ≡ some (
            dev',
            record {
              result = ok (accepted count pos);
              pos = end;
              delivered = u.from_user (accepted count pos);
            },
          ))
unfolding read_spec slice
char_read-char_write u r dev count pos idle few inside whole taken =
    let n : ℕ = accepted count pos in
    let src : List ℕ = u.from_user n in
    let size : length src ≡ n = u.length-from_user n in
    let fits : pos + n ≤ buffer_size = accepted-le count pos inside in
    let dev' : SimpleVmaDev = record dev { bytes = splice pos src dev.bytes } in
    let before : leb buffer_size pos ≡ false = lt→leb buffer_size pos inside in
    let long : length dev'.bytes ≡ buffer_size = length-splice pos src dev.bytes ∙ idle.sized in
    let back : take (length src) (drop pos dev'.bytes) ≡ src =
      slice-splice_self pos src dev.bytes (omega (arith, size, idle.sized)) in
    (
      dev',
      pos + n,
      char_write_lem u dev count pos idle few ∙ rw (before, whole),
      char_read-read_spec r dev' n pos (record { sized = long; unlocked = idle.unlocked })
            (ground arith)
          ∙ rw (long, before, rw size at back, taken, size),
    )
