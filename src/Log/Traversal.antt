-- ===== src/Log/Traversal.antt =====
-- The log of pos_demo.c read through seq_file: seq_read calls start, then show and next in turn
-- until one of them returns NULL.
use kernel_programming.Base.{
  ℕ, zero, suc, ◌+◌, ◌≤◌, ◌<◌, ◌≡◌, refl, inl, inr, Option, none, some, List, [], ◌∷◌, leb, length,
  take, drop, drop_end, get_elem?, arith, ◌>>=◌, Access, Bool-cases, true, le→leb, if◌then◌else◌,
}
use kernel_programming.Log.{VirtualLog, LogEntry, log_seq_start, log_seq_next, log_seq_show}
use kernel_programming.Log.Window.{IsValid, held, length-held}

-- The loop of seq_read: `v` is what start or the last next returned, `pos` its position.
unfoldable pub seq_loop :
    (fuel : ℕ) → VirtualLog → (v : Option ℕ) (pos : ℕ) → Access (List LogEntry)
unfolding log_seq_next log_seq_show
seq_loop fuel log none pos = some []
seq_loop zero log (some v) pos = none
seq_loop (suc fuel) log (some v) pos =
    let (pos', next) = log_seq_next log pos in
    let rest = seq_loop fuel log next pos' in
    (do entry ← log_seq_show log v; more ← rest; some (entry ∷ more))

unfoldable pub seq_dump : (fuel : ℕ) → VirtualLog → (pos : ℕ) → Access (List LogEntry)
unfolding log_seq_start
seq_dump fuel log pos = seq_loop fuel log (log_seq_start log pos) pos

drop-take_first {ℓ} :
    {A : Type ℓ} (i n : ℕ) (xs : List A)
    → i < n
    → n ≤ length xs
    → (x : A) × (get_elem? xs i ≡ some x) × (x ∷ drop (i + 1) (take n xs) ≡ drop i (take n xs))
drop-take_first i zero xs h g = absurd (omega arith)
drop-take_first i (suc n) [] h g = absurd (omega arith)
drop-take_first zero (suc n) (x ∷ xs) h g = (x, refl, refl)
drop-take_first (suc i) (suc n) (x ∷ xs) h g =
    let e : suc i + 1 ≡ suc (i + 1) = omega arith in
    rw e (drop-take_first i n xs (omega arith) (omega arith))

loop-held :
    (fuel : ℕ) (log : VirtualLog) (pos : ℕ)
    → IsValid log
    → log.log_count ≤ fuel + pos
    → seq_loop fuel log (if leb log.log_count pos then none else some pos) pos
      ≡ some (drop pos (held log))
unfolding seq_loop
loop-held zero log pos v h =
    let end : leb log.log_count pos ≡ true = le→leb _ _ (omega arith) in
    rw (end, drop_end pos (held log) (omega (arith, length-held log v)))
loop-held (suc fuel) log pos v h = elim (Bool-cases (leb log.log_count pos)) [
  | inl end ↦ rw (end, drop_end pos (held log) (ground (arith, length-held log v)))
  | inr here ↦
      let (x, at, joined) =
        drop-take_first pos log.log_count log.log_buffer (ground arith)
          (omega (arith, v.sized, v.few)) in
      rw (here, at, loop-held fuel log (pos + 1) v (omega arith), joined)
]

-- In a valid log, a traversal that starts at any position delivers the entries in use from that
-- position on, each once and in order, it reads no element outside the array, and it ends within
-- as many rounds as entries are in use.
pub seq_dump_complete :
    (fuel : ℕ) (log : VirtualLog) (pos : ℕ)
    → IsValid log
    → log.log_count ≤ fuel + pos
    → seq_dump fuel log pos ≡ some (drop pos (held log))
unfolding seq_dump
seq_dump_complete fuel log pos v h = loop-held fuel log pos v h
