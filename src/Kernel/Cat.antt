-- ===== src/Kernel/Cat.antt =====
-- Reading from start to end, as `cat` does: reads of one size until one returns 0. The handler is
-- a parameter: any that reads its contents as `read_spec` says.
use kernel_programming.Base.{
  ℕ, zero, suc, ◌+◌, ◌≤◌, ◌<◌, ◌≡◌, refl, Option, none, some, List, [], ◌++◌, length, take, drop,
  arith, ok, err, inl, inr, Bool-cases, leb, ◌==◌, if◌then◌else◌, ◌>>=◌, Access, length-drop,
  drop-drop, drop_end, take-append_rest, length-take_pos, ne→==,
}
use kernel_programming.Kernel.User.{UserMemory, max_rw_count}
use kernel_programming.Kernel.Reading.{Reading, read_spec}

-- A read handler: what a read of a count at a position reports.
abbrev pub Handler : Type 0
Handler = (count pos : ℕ) → Access Reading

-- The handler, called with what the VFS lets through, reads the contents `cs`.
abbrev pub ReadsAs : UserMemory → Handler → List ℕ → Type 0
ReadsAs u read cs =
    (count pos : ℕ) → count ≤ max_rw_count → read count pos ≡ some (read_spec u cs count pos)

-- `none` where a read fails or the rounds run out.
unfoldable pub cat : (rounds : ℕ) → Handler → (count pos : ℕ) → Option (List ℕ)
cat zero read count pos = none
cat (suc rounds) read count pos = do
  r ← read count pos
  elim r.result [
    | err e ↦ none
    | ok n ↦
        let rest = cat rounds read count r.pos in
        if n == 0 then some [] else (do more ← rest; some (r.delivered ++ more))
  ]

module _ (u : UserMemory) (read : Handler) (cs : List ℕ) (reads : ReadsAs u read cs)
    (count : ℕ) where
  pub cat_lem :
      0 < count
      → count ≤ max_rw_count
      → ((bs : List ℕ) → u.to_left bs ≡ 0)
      → (rounds pos : ℕ) → 0 < rounds
      → length cs < rounds + pos
      → cat rounds read count pos ≡ some (drop pos cs)
  unfolding cat read_spec
  cat_lem some_room few takes zero pos left h = absurd (omega arith)
  cat_lem some_room few takes (suc rounds) pos left h = elim (Bool-cases (leb (length cs) pos)) [
    | inl out ↦ rw (reads count pos few, out, drop_end pos cs (ground arith))
    | inr inside ↦
        let chunk : List ℕ = take count (drop pos cs) in
        let more : 0 < length chunk =
          length-take_pos count (drop pos cs) some_room (ground (arith, length-drop pos cs)) in
        let rest =
          cat_lem some_room few takes rounds (pos + length chunk) (ground arith) (omega arith) in
        let joined : chunk ++ drop (pos + length chunk) cs ≡ drop pos cs =
          rw (← drop-drop pos (length chunk) (pos + length chunk) cs refl)
            (take-append_rest count (drop pos cs)) in
        rw (
          reads count pos few,
          inside,
          takes chunk,
          ne→== (length chunk) 0 (omega arith),
          rest,
          joined,
        )
  ]
