-- ===== src/Tests/Atomic.antt =====
-- Commands on a fresh state of the atomic demo, with a scanner for the commands that are used.
use kernel_programming.Base.{
  ℕ, ◌+◌, ◌≤◌, ◌≡◌, refl, not, ◌&&◌, List, [], ◌∷◌, length, ltb, ◌==◌, if◌then◌else◌, ok, err,
  einval, arith, codes, replicate, get_elem?, until_nul,
}
use mathlib.Core.Option
use kernel_programming.Kernel.User.{mapped}
use kernel_programming.Atomic.{
  Atomics, fresh_atomics, Scanned, no_word, word, word_and_number, atomic_bits_write, printed_bits,
}
use kernel_programming.Atomic.Counters.{advanced, serve_all, serve_all-ref_count}
use kernel_programming.Atomic.Flags.{change, bits_write_lem}

-- What stands for the text of a command in these tests: one letter, repeated.
abbrev scan : List ℕ → Scanned
scan [] = no_word
scan (c ∷ cs) =
    if c == b'a'
    then word_and_number (codes "add") 7
    else if c == b's'
    then word_and_number (codes "sub") 7
    else if c == b'c'
    then word_and_number (codes "change") 3
    else word (codes "ref_put")

serve_all-ref_count_example :
    (1 ≤ (serve_all scan (advanced (mapped b'r') 7 ∷ []) fresh_atomics).ref_count)
    × ((serve_all scan (advanced (mapped b'r') 7 ∷ []) fresh_atomics).ref_count ≤ 1 + 1)
serve_all-ref_count_example =
    serve_all-ref_count scan (advanced (mapped b'r') 7 ∷ []) fresh_atomics 1 (omega arith)
      (omega arith) (omega arith)

bits_write_lem_example :
    (s' : Atomics) × (atomic_bits_write (mapped b'c') scan fresh_atomics 4
      ≡ (s', if ltb 3 64 then ok 4 else err einval))
    × ((m : ℕ)
        → get_elem? s'.bit_flags m ≡ (
            if ltb 3 64 && (m == 3)
            then Option.map not (get_elem? fresh_atomics.bit_flags m)
            else get_elem? fresh_atomics.bit_flags m))
unfolding replicate until_nul
bits_write_lem_example =
    bits_write_lem (mapped b'c') scan fresh_atomics 4 (codes "cccc") change 3 refl refl

-- The digits that are printed for the 64 flags: 22, of which 14 are above the lowest eight.
printed_digits : length (printed_bits 64) ≡ 22
unfolding printed_bits
printed_digits = refl
