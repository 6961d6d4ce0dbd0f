-- ===== src/Log/Writing.antt =====
-- Writes to the log of pos_demo.c through /proc.
use kernel_programming.Base.{
  ℕ, zero, suc, ◌+◌, ◌≤◌, ◌<◌, ◌≡◌, refl, inl, inr, none, some, List, [], ◌∷◌, ◌++◌, ◌==◌, length,
  length-append, get_elem?, arith, Bool-cases, true, false, if◌then◌else◌, splice, until_nul,
  write_at-within, ok, latest, overlay, le→ltb,
}
use kernel_programming.Kernel.User.{UserMemory}
use kernel_programming.Log.{VirtualLog, log_proc_write, last_index, new_entry, max_log_entries}
use kernel_programming.Log.Window.{IsValid, held, add_log_entry-Moved}

-- A text without the newline at its end, where it has one.
unfoldable pub chomp : List ℕ → List ℕ
chomp [] = []
chomp (c ∷ []) = if c == b'\n' then [] else c ∷ []
chomp (c ∷ d ∷ cs) = c ∷ chomp (d ∷ cs)

-- The last byte of a text with its NUL, and the string in memory once that byte is treated.
chomp-until_nul :
    (n : ℕ) (cs : List ℕ)
    → length cs ≡ suc n
    → (last : ℕ) × (get_elem? (cs ++ 0 ∷ []) n ≡ some last)
      × ((last == b'\n') ≡ true
          → until_nul (splice n (0 ∷ []) (cs ++ 0 ∷ [])) ≡ until_nul (chomp cs))
      × ((last == b'\n') ≡ false → until_nul (cs ++ 0 ∷ []) ≡ until_nul (chomp cs))
unfolding chomp splice overlay until_nul
chomp-until_nul n [] h = absurd (omega arith)
chomp-until_nul zero (c ∷ []) h = (c, refl, (λ e. rw e refl), λ e. rw e refl)
chomp-until_nul zero (c ∷ d ∷ cs) h = absurd (omega arith)
chomp-until_nul (suc n) (c ∷ []) h = absurd (omega arith)
chomp-until_nul (suc n) (c ∷ d ∷ cs) h =
    let (last, at, cut, kept) = chomp-until_nul n (d ∷ cs) (omega arith) in
    (last, at, (λ e. rw (cut e)), λ e. rw (kept e))

last_index_lem : (n : ℕ) → n < 63 → last_index (suc n) ≡ n
last_index_lem n h = omega arith

-- A write of 1 to 63 bytes from a buffer that is mapped stays within its own buffer and the log's
-- array, and reports the whole count. The log then holds one entry more, with the next id and the
-- bytes without a final newline, up to their first NUL, and the oldest of a hundred goes.
pub log_proc_write-Moved :
    (u : UserMemory) (j : ℕ) (log : VirtualLog) (n : ℕ)
    → IsValid log
    → n < 63
    → u.from_left (suc n) ≡ 0
    → (log' : VirtualLog) × (log_proc_write u true j log (suc n) ≡ some (log', ok (suc n)))
      × IsValid log'
      × (held log'
          ≡ latest max_log_entries
              (held log ++ new_entry j log.next_id (until_nul (chomp (u.from_user (suc n)))) ∷ []))
unfolding log_proc_write
log_proc_write-Moved u j log n v few copied =
    let bs : List ℕ = u.from_user (suc n) in
    let (log', added, valid, window, id) = add_log_entry-Moved j (until_nul (chomp bs)) log v in
    let (last, at, cut, kept) = chomp-until_nul n bs (u.length-from_user (suc n)) in
    let room : n + 1 ≤ length (bs ++ 0 ∷ []) =
      omega (arith, length-append bs (0 ∷ []), u.length-from_user (suc n)) in
    (
      log',
      (elim (Bool-cases (last == b'\n')) [
        | inl e ↦ rw (
          le→ltb 63 (suc n) (omega arith),
          copied,
          last_index_lem n few,
          at,
          e,
          write_at-within (bs ++ 0 ∷ []) n (0 ∷ []) room,
          cut e,
          added,
        )
        | inr e ↦
            rw (le→ltb 63 (suc n) (omega arith), copied, last_index_lem n few, at, e, kept e, added)
      ]),
      valid,
      window,
    )

no_bytes : (cs : List ℕ) → length cs ≡ 0 → cs ≡ []
no_bytes [] h = refl
no_bytes (c ∷ cs) h = absurd (omega arith)

-- A write of zero bytes passes the check of its count, and then reads the byte before the
-- one-byte buffer, in any log.
pub log_proc_write-empty :
    (u : UserMemory) (j : ℕ) (log : VirtualLog)
    → u.from_left 0 ≡ 0
    → log_proc_write u true j log 0 ≡ none
unfolding log_proc_write
log_proc_write-empty u j log h = rw (h, no_bytes (u.from_user 0) (u.length-from_user 0))
