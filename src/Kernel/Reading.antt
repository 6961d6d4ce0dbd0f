-- ===== src/Kernel/Reading.antt =====
-- Reading from a file position: what a read handler of any of the modules reports, and what it
-- should deliver.
use kernel_programming.Base.{
  ℕ, ◌+◌, ◌-◌, ◌≤◌, ◌<◌, ◌≡◌, sym, ap, ◌∙◌, inl, inr, List, [], arith, length, take, drop, slice,
  length-drop, length-take, take_all, leb, ltb, ◌==◌, if◌then◌else◌, Bool-cases, Result, ok, err,
  efault,
}
use kernel_programming.Kernel.User.{UserMemory}

-- The result of a read, the file position after it, and the bytes that reached the user.
pub record Reading : Type 0 where
  pub result : Result ℕ
  pub pos : ℕ
  pub delivered : List ℕ

-- What a read should do, with no 64-bit arithmetic: nothing at or behind the end of the contents,
-- else as much of it as was asked for and is there, and the position moves past it; a fault of the
-- user's buffer moves nothing.
abbrev pub chunk_at : (cs : List ℕ) (count pos : ℕ) → List ℕ
chunk_at cs count pos = take count (drop pos cs)

unfoldable pub read_spec : UserMemory → (cs : List ℕ) (count pos : ℕ) → Reading
read_spec u cs count pos =
    if leb (length cs) pos
    then record { result = ok 0; pos = pos; delivered = [] }
    else if u.to_left (chunk_at cs count pos) == 0
    then record {
      result = ok (length (chunk_at cs count pos));
      pos = pos + length (chunk_at cs count pos);
      delivered = chunk_at cs count pos;
    }
    else record { result = err efault; pos = pos; delivered = [] }

-- The count that the code clamps to selects the same bytes.
pub clamped :
    (cs : List ℕ) (count pos n : ℕ)
    → pos < length cs
    → n ≡ (if ltb (length cs) (pos + count) then length cs - pos else count)
    → (slice pos n cs ≡ chunk_at cs count pos)
      × (length (chunk_at cs count pos) ≡ n)
      × (pos + n ≤ length cs)
unfolding slice
clamped cs count pos n lt e = elim (Bool-cases (ltb (length cs) (pos + count))) [
  | inl long ↦
      let n' : n ≡ length (drop pos cs) = ground (arith, length-drop pos cs) in
      let all : take count (drop pos cs) ≡ drop pos cs =
        take_all count _ (ground (arith, length-drop pos cs)) in
      (
        take_all n (drop pos cs) (omega arith) ∙ sym all,
        ap length all ∙ sym n',
        omega (arith, length-drop pos cs),
      )
  | inr short ↦
      let n' : n ≡ count = ground arith in
      (
        ap (λ k. take k (drop pos cs)) n',
        length-take count (drop pos cs) (ground (arith, length-drop pos cs)) ∙ sym n',
        ground arith,
      )
]
