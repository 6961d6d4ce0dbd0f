-- ===== src/Log/Window.antt =====
-- The log of pos_demo.c against the history of its calls: `add_log_entry` on a log with room and
-- on a full one, and a run of any number of calls.
use kernel_programming.Base.{
  ℕ, ◌+◌, ◌-◌, ◌%◌, ◌^◌, ◌≤◌, ◌<◌, ◌≡◌, refl, sym, ap, ◌∙◌, inl, inr, some, List, [], ◌∷◌, ◌++◌,
  append_assoc, append-nil, ltb, lt→ltb, length, take, drop, length-append, length-drop,
  length-take, take_all, drop-append, slice, splice, arith, length-replicate, read_at-within,
  write_at-within, length-slice, length-splice, slice-splice_self, take-splice_one, false, latest,
  latest-append, ◌>>=◌, Access, Bool-cases,
}
use kernel_programming.Log.{
  VirtualLog, LogEntry, add_log_entry, new_entry, max_log_entries, empty_log, blank,
}

-- The array has its hundred places, of which at most all are in use.
pub record IsValid (log : VirtualLog) : Type 0 where
  pub sized : length log.log_buffer ≡ max_log_entries
  pub few : log.log_count ≤ max_log_entries

-- The entries in use, oldest first.
abbrev pub held : VirtualLog → List LogEntry
held log = take log.log_count log.log_buffer

-- What a call makes of the log: it succeeds, and the window over the history moves on.
abbrev pub Moved : (j : ℕ) (m : List ℕ) (log : VirtualLog) → Type 0
Moved j m log =
    (log' : VirtualLog) × (add_log_entry j m log ≡ some log')
    × IsValid log'
    × (held log' ≡ latest max_log_entries (held log ++ new_entry j log.next_id m ∷ []))
    × (log'.next_id ≡ (log.next_id + 1) % 2 ^ 32)

pub length-held : (log : VirtualLog) → IsValid log → length (held log) ≡ log.log_count
length-held log v = length-take log.log_count log.log_buffer (omega (arith, v.sized, v.few))

-- Nothing is dropped from a list that fits.
latest_all {ℓ} : {A : Type ℓ} (n : ℕ) (xs : List A) → length xs ≤ n → latest n xs ≡ xs
latest_all n xs h = let e : length xs - n ≡ 0 = omega arith in rw e

-- Room left: the entry goes behind those in use.
add-room :
    (j : ℕ) (m : List ℕ) (log : VirtualLog)
    → IsValid log
    → log.log_count < max_log_entries
    → Moved j m log
unfolding add_log_entry
add-room j m log v h =
    let e : LogEntry = new_entry j log.next_id m in
    let fits : length (held log ++ e ∷ []) ≤ max_log_entries =
      omega (arith, length-append (held log) (e ∷ []), length-held log v) in
    (
      record {
        log_buffer = splice log.log_count (e ∷ []) log.log_buffer;
        log_count = log.log_count + 1;
        next_id = (log.next_id + 1) % 2 ^ 32;
      },
      rw (
        lt→ltb _ _ h,
        write_at-within log.log_buffer log.log_count (e ∷ []) (omega (arith, v.sized)),
      ),
      record {
        sized = length-splice log.log_count (e ∷ []) log.log_buffer ∙ v.sized;
        few = omega arith;
      },
      take-splice_one log.log_count e log.log_buffer (omega (arith, v.sized))
          ∙ sym (latest_all max_log_entries _ fits),
      refl,
    )

-- The array after the move: all but the oldest entry, then the new one.
shifted :
    (e : LogEntry) (buf : List LogEntry)
    → length buf ≡ 100
    → take 100 (splice 99 (e ∷ []) (splice 0 (slice 1 99 buf) buf)) ≡ drop 1 buf ++ e ∷ []
unfolding slice
shifted e buf h =
    let moved : List LogEntry = slice 1 99 buf in
    let n : length moved ≡ 99 = length-slice 1 99 buf (omega arith) in
    let kept : take 99 (splice 0 moved buf) ≡ moved =
      ap (λ k. take k (splice 0 moved buf)) (sym n) ∙ slice-splice_self 0 moved buf (omega arith) in
    take-splice_one 99 e (splice 0 moved buf) (omega (arith, length-splice 0 moved buf))
    ∙ ap (λ l. l ++ e ∷ []) (kept ∙ take_all 99 (drop 1 buf) (omega (arith, length-drop 1 buf)))

-- A full log: the oldest entry goes.
add-full :
    (j : ℕ) (m : List ℕ) (log : VirtualLog)
    → IsValid log
    → log.log_count ≡ max_log_entries
    → Moved j m log
unfolding add_log_entry
add-full j m log v h =
    let e : LogEntry = new_entry j log.next_id m in
    let buf : List LogEntry = log.log_buffer in
    let moved : List LogEntry = slice 1 99 buf in
    let n : length moved ≡ 99 = length-slice 1 99 buf (omega (arith, v.sized)) in
    let one : List LogEntry = splice 0 moved buf in
    let sized : length one ≡ length buf = length-splice 0 moved buf in
    let all : take 100 buf ≡ buf = take_all 100 buf (omega (arith, v.sized)) in
    let over : length (buf ++ e ∷ []) - 100 ≡ 1 =
      omega (arith, length-append buf (e ∷ []), v.sized) in
    let full : ltb log.log_count max_log_entries ≡ false = rw h refl in
    (
      record log { log_buffer = splice 99 (e ∷ []) one; next_id = (log.next_id + 1) % 2 ^ 32 },
      rw (
        full,
        read_at-within buf 1 99 (omega (arith, v.sized)),
        write_at-within buf 0 moved (omega (arith, v.sized, n)),
        write_at-within one 99 (e ∷ []) (omega (arith, sized, v.sized)),
      ),
      record { sized = length-splice 99 (e ∷ []) one ∙ sized ∙ v.sized; few = v.few },
      rw (h, shifted e buf v.sized, all, over, drop-append 1 buf (e ∷ []) (omega (arith, v.sized))),
      refl,
    )

pub add_log_entry-Moved : (j : ℕ) (m : List ℕ) (log : VirtualLog) → IsValid log → Moved j m log
add_log_entry-Moved j m log v = elim (Bool-cases (ltb log.log_count max_log_entries)) [
  | inl room ↦ add-room j m log v (ground arith)
  | inr full ↦ add-full j m log v (ground (arith, v.few))
]

-- Calls one after the other, each at its time with its message.
unfoldable pub add_all : List (ℕ × List ℕ) → VirtualLog → Access VirtualLog
add_all [] log = some log
add_all ((j, m) ∷ calls) log = add_log_entry j m log >>= add_all calls

-- The entries that the calls make, with the ids in sequence from `id`.
unfoldable pub history : (id : ℕ) → List (ℕ × List ℕ) → List LogEntry
history id [] = []
history id ((j, m) ∷ calls) = new_entry j id m ∷ history ((id + 1) % 2 ^ 32) calls

add_all-history :
    (calls : List (ℕ × List ℕ)) (log : VirtualLog)
    → IsValid log
    → (log' : VirtualLog) × (add_all calls log ≡ some log')
      × IsValid log'
      × (held log' ≡ latest max_log_entries (held log ++ history log.next_id calls))
unfolding add_all history
add_all-history [] log v = (
  log,
  refl,
  v,
  sym (
      ap (latest max_log_entries) (append-nil (held log))
      ∙ latest_all max_log_entries (held log) (omega (arith, length-held log v, v.few))),
)
add_all-history ((j, m) ∷ calls) log v =
    let (one, done, ok_one, window, id) = add_log_entry-Moved j m log v in
    let (log', all, ok_all, rest) = add_all-history calls one ok_one in
    let e : LogEntry = new_entry j log.next_id m in
    let more : List LogEntry = history ((log.next_id + 1) % 2 ^ 32) calls in
    (
      log',
      rw done all,
      ok_all,
      rest ∙ rw (id, window, latest-append max_log_entries (held log ++ e ∷ []) more, append_assoc),
    )

empty_log-IsValid : IsValid empty_log
empty_log-IsValid = record { sized = length-replicate 100 blank; few = omega arith }

-- However many entries are added to the empty log, every call stays within the array, and what the
-- log then holds is the last hundred entries of the history, oldest first, with their ids in
-- sequence from 1 (modulo 2 ^ 32).
pub add_all-latest :
    (calls : List (ℕ × List ℕ))
    → (log : VirtualLog) × (add_all calls empty_log ≡ some log)
      × IsValid log
      × (held log ≡ latest max_log_entries (history 1 calls))
add_all-latest calls = add_all-history calls empty_log empty_log-IsValid
