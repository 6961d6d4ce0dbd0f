-- ===== src/Tests/Log.antt =====
-- The virtual log after its initialisation, full, and at concrete writes.
use kernel_programming.Base.{
  ℕ, ◌≡◌, some, List, [], ◌∷◌, arith, drop, latest, replicate, codes, length-replicate,
}
use kernel_programming.Log.{VirtualLog, max_log_entries, empty_log, blank}
use kernel_programming.Log.Window.{IsValid, held, add_all, history, add_all-latest}
use kernel_programming.Log.Traversal.{seq_dump, seq_dump_complete}

abbrev three_calls : List (ℕ × List ℕ)
three_calls = (5, codes "one") ∷ (6, codes "two") ∷ (9, codes "three") ∷ []

add_all-latest_example :
    (log : VirtualLog) × (add_all three_calls empty_log ≡ some log)
    × IsValid log
    × (held log ≡ latest max_log_entries (history 1 three_calls))
add_all-latest_example = add_all-latest three_calls

abbrev full_log : VirtualLog
full_log = record { log_buffer = replicate 100 blank; log_count = 100; next_id = 101 }

full_log-IsValid : IsValid full_log
full_log-IsValid = record { sized = length-replicate 100 blank; few = omega arith }

seq_dump_complete_example : seq_dump 100 full_log 7 ≡ some (drop 7 (held full_log))
seq_dump_complete_example = seq_dump_complete 100 full_log 7 full_log-IsValid (omega arith)
