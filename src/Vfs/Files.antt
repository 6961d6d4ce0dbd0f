-- ===== src/Vfs/Files.antt =====
-- Reading and writing a file of `simple_vfs.c`.
use kernel_programming.Base.{
  ℕ, ◌+◌, ◌-◌, ◌%◌, ◌^◌, ◌≤◌, ◌<◌, ◌≡◌, inl, inr, refl, ap, ◌∙◌, false, some, List, [], ◌∷◌, length,
  drop, arith, slice, splice, length-splice, slice-splice_self, slice-splice_above, ltb, leb,
  replicate, length-replicate, until_nul, strlen-until_nul, slice-until_nul, until_nul-splice,
  write_at-within, read_at-within, Result, ok, err, efault, Bool-cases, ◌==◌, if◌then◌else◌,
}
use kernel_programming.Kernel.User.{UserMemory, max_rw_count}
use kernel_programming.Kernel.Cat.{cat, cat_lem}
use kernel_programming.Kernel.Reading.{read_spec, clamped}
use kernel_programming.Vfs.{
  ExampleInode, example_read, example_write, example_alloc_inode, Answers, data_size,
}

-- The data area has its 64 bytes, and the last one is NUL.
pub record IsValid (inode : ExampleInode) : Type 0 where
  pub sized : length inode.bytes ≡ data_size
  pub closed : slice (data_size - 1) 1 inode.bytes ≡ 0 ∷ []

-- The string that a file holds.
pub content : ExampleInode → List ℕ
content inode = until_nul inode.bytes

-- How many bytes of a write are kept.
abbrev pub kept : ℕ → ℕ
kept count = if ltb (data_size - 1) count then data_size - 1 else count

kept-le : (count : ℕ) → kept count ≤ 63
kept-le count = ground arith

-- The data area after `src` was written to its front.
abbrev filled : ExampleInode → List ℕ → List ℕ
filled inode src = splice 0 src inode.bytes

closed_at :
    (n : ℕ) (bs : List ℕ)
    → n ≤ 63
    → length bs ≡ 64
    → slice 63 1 bs ≡ 0 ∷ []
    → slice 63 1 (splice n (0 ∷ []) bs) ≡ 0 ∷ []
closed_at n bs small size h = elim (Bool-cases (n == 63)) [
  | inl e ↦
      let e' : n ≡ 63 = ground arith in
      rw e' (slice-splice_self 63 (0 ∷ []) bs (omega (arith, size)))
  | inr e ↦ slice-splice_above 63 1 n (0 ∷ []) bs (ground arith) ∙ h
]

module _ (u : UserMemory) (inode : ExampleInode) (v : IsValid inode) (count pos : ℕ) where
  abbrev source : List ℕ
  source = u.from_user (kept count)

  room : 0 + length source ≤ length inode.bytes
  room = omega (arith, u.length-from_user (kept count), kept-le count, v.sized)

  write-copied :
      u.from_left (kept count) ≡ 0
      → example_write u inode count pos
        ≡ some (
          record inode {
            bytes = splice (kept count) (0 ∷ []) (filled inode source);
            i_size = kept count;
          },
          ok (kept count),
        )
  unfolding example_write
  write-copied h =
      let second : kept count + 1 ≤ length (filled inode source) =
        omega (arith, length-splice 0 source inode.bytes, kept-le count, v.sized) in
      rw (
        write_at-within inode.bytes 0 source room,
        h,
        write_at-within (filled inode source) (kept count) (0 ∷ []) second,
      )

  write-faulted :
      (u.from_left (kept count) == 0) ≡ false
      → example_write u inode count pos
        ≡ some (record inode { bytes = filled inode source }, err efault)
  unfolding example_write
  write-faulted h = rw (write_at-within inode.bytes 0 source room, h)

  filled-IsValid : IsValid (record inode { bytes = filled inode source })
  filled-IsValid = record {
    sized = length-splice 0 source inode.bytes ∙ v.sized;
    closed =
        slice-splice_above 63 1 0 source inode.bytes
          (omega (arith, u.length-from_user (kept count), kept-le count))
        ∙ v.closed;
  }

  closed_off : slice 63 1 (splice (kept count) (0 ∷ []) (filled inode source)) ≡ 0 ∷ []
  closed_off =
      closed_at (kept count) (filled inode source) (kept-le count) filled-IsValid.sized
        filled-IsValid.closed

  content-copied : until_nul (splice (kept count) (0 ∷ []) (filled inode source)) ≡ until_nul source
  content-copied =
      until_nul-splice (kept count) source inode.bytes (u.length-from_user (kept count))
        (omega (arith, kept-le count, v.sized))

  -- A write to a file with a valid data area never accesses memory outside it, on any count, and
  -- leaves the area valid, also where the user's buffer faults.
  pub write-IsValid :
      (inode' : ExampleInode) × (result : Result ℕ) × (example_write u inode count pos
        ≡ some (inode', result))
      × IsValid inode'
  write-IsValid = elim (Bool-cases (u.from_left (kept count) == 0)) [
    | inl e ↦ (
      _,
      _,
      write-copied (ground arith),
      record {
        sized = length-splice (kept count) (0 ∷ []) (filled inode source) ∙ filled-IsValid.sized;
        closed = closed_off;
      },
    )
    | inr e ↦ (_, _, write-faulted e, filled-IsValid)
  ]

-- A read of a valid file of at most the count that the VFS lets through, at any position and
-- whatever the user's buffer answers, does what `read_spec` says of the string that the file holds:
-- no access leaves the data area, and no 64-bit sum wraps.
pub example_read-read_spec :
    (u : UserMemory) (inode : ExampleInode) (count pos : ℕ)
    → IsValid inode
    → count ≤ max_rw_count
    → example_read u inode count pos ≡ some (read_spec u (content inode) count pos)
unfolding example_read read_spec content
example_read-read_spec u inode count pos v few =
    elim (Bool-cases (leb (length (until_nul inode.bytes)) pos)) [
      | inl out ↦ rw ((strlen-until_nul 63 inode.bytes v.closed).0, out)
      | inr inside ↦
          let cs : List ℕ = until_nul inode.bytes in
          let n : ℕ = if ltb (length cs) (pos + count) then length cs - pos else count in
          let (found, short) = strlen-until_nul 63 inode.bytes v.closed in
          let lt : pos < length cs = ground arith in
          let (same, len, fits) = clamped cs count pos n lt refl in
          let wrap : (pos + count) % 2 ^ 64 ≡ pos + count = omega arith in
          let wrap' : (pos + n) % 2 ^ 64 ≡ pos + n = omega arith in
          rw (
            found,
            inside,
            wrap,
            read_at-within inode.bytes pos n (omega (arith, v.sized)),
            slice-until_nul pos n inode.bytes fits,
            same,
            len,
            wrap',
          )
    ]

-- A write whose bytes could be copied keeps the first 63 of them, from any position, and reports
-- how many; every later read sees the string that these bytes hold.
pub example_read-write :
    (u r : UserMemory) (inode : ExampleInode) (count pos n at' : ℕ)
    → IsValid inode
    → u.from_left (kept count) ≡ 0
    → n ≤ max_rw_count
    → (inode' : ExampleInode) × (example_write u inode count pos ≡ some (inode', ok (kept count)))
      × (example_read r inode' n at'
          ≡ some (read_spec r (until_nul (u.from_user (kept count))) n at'))
unfolding content
example_read-write u r inode count pos n at' v whole few =
    let inode' : ExampleInode = record inode {
      bytes = splice (kept count) (0 ∷ []) (filled inode (u.from_user (kept count)));
      i_size = kept count;
    } in
    let v' : IsValid inode' = record {
      sized =
          length-splice (kept count) (0 ∷ []) (filled inode (u.from_user (kept count)))
          ∙ (filled-IsValid u inode v count pos).sized;
      closed = closed_off u inode v count pos;
    } in
    (
      inode',
      write-copied u inode v count pos whole,
      example_read-read_spec r inode' n at' v' few
          ∙ ap (λ cs. some (read_spec r cs n at')) (content-copied u inode v count pos),
    )

zeroed : (slice 63 1 (replicate {A = ℕ} 64 0) ≡ 0 ∷ []) × (until_nul (replicate 64 0) ≡ [])
unfolding slice replicate until_nul
zeroed = (refl, refl)

-- A file that `example_alloc_inode` made is valid, and holds the empty string.
pub alloc_inode-IsValid :
    (k : Answers) {inode : ExampleInode}
    → example_alloc_inode k ≡ some inode
    → IsValid inode × (content inode ≡ [])
unfolding example_alloc_inode content
alloc_inode-IsValid k h = ground (arith, length-replicate {A = ℕ} 64 0, zeroed)

-- Reading a valid file in pieces of any size from 1 on, into a buffer that takes them, delivers all
-- that stands behind the start position, with nothing lost, repeated or out of order, and ends with
-- a read that returns 0: one round more than there are bytes suffices.
pub cat-example_read :
    (u : UserMemory) (inode : ExampleInode) (count rounds pos : ℕ)
    → IsValid inode
    → 0 < count
    → count ≤ max_rw_count
    → ((bs : List ℕ) → u.to_left bs ≡ 0)
    → 0 < rounds
    → length (content inode) < rounds + pos
    → cat rounds (example_read u inode) count pos ≡ some (drop pos (content inode))
cat-example_read u inode count rounds pos v some_room few takes left h =
    cat_lem u (example_read u inode) (content inode) (λ n p. example_read-read_spec u inode n p v)
      count some_room few takes rounds pos left h
