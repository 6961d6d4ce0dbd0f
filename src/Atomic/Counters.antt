-- ===== src/Atomic/Counters.antt =====
-- The counters of atomic_demo.c over any sequence of writes to the three files.
use kernel_programming.Base.{
  ℕ, ◌+◌, ◌^◌, ◌≤◌, ◌<◌, ◌≡◌, refl, sym, ap, ◌∙◌, inl, inr, ◌⊎◌, Bool, true, false, Option, none,
  some, List, [], ◌∷◌, length, leb, if◌then◌else◌, ◌||◌, Result, ok, err, einval, Errno, arith,
}
use kernel_programming.Kernel.User.{UserMemory}
use kernel_programming.Atomic.{
  Atomics, Scanned, no_word, word, word_and_number, atomic_basic_write, atomic_advanced_write,
  atomic_bits_write, basic_command, advanced_command, bits_command, advanced_operation,
  bit_operation, count_operation, atomic_add_return, ref_put, set_state, set_counter, change_bit_of,
  with_input,
}

-- A write of `count` bytes to one of the files.
pub data Call : Type 0 where
  basic : UserMemory → ℕ → Call
  advanced : UserMemory → ℕ → Call
  bits : UserMemory → ℕ → Call

unfoldable pub serve : (sscanf : List ℕ → Scanned) → Call → Atomics → Atomics × Result ℕ
serve sscanf (basic u count) s = atomic_basic_write u sscanf s count
serve sscanf (advanced u count) s = atomic_advanced_write u sscanf s count
serve sscanf (bits u count) s = atomic_bits_write u sscanf s count

unfoldable pub serve_all : (sscanf : List ℕ → Scanned) → List Call → Atomics → Atomics
serve_all sscanf [] s = s
serve_all sscanf (c ∷ cs) s = serve_all sscanf cs ((serve sscanf c s).0)

-- What may become of the reference count.
abbrev RefMoves : (before after : ℕ) → Type 0
RefMoves before after =
    (after ≡ before) ⊎ ((after ≡ atomic_add_return 1 before) ⊎ (after ≡ ref_put before))

-- What a call may do: report an error with the state kept but for the count of operations, or
-- report a success. The reference count moves by one command at most.
abbrev Changes : Atomics → Atomics × Result ℕ → Type 0
Changes s (s', r) =
    ((e : Errno) → r ≡ err e → s' ≡ record s { operations_count = s'.operations_count })
    × RefMoves s.ref_count s'.ref_count

advanced_operation-RefMoves :
    (op : List ℕ) (v : ℕ) (s s' : Atomics)
    → advanced_operation op v s ≡ some s'
    → RefMoves s.ref_count s'.ref_count
unfolding advanced_operation
advanced_operation-RefMoves op v s s' e = ground arith

unchanged : (s : Atomics) (e : Errno) → Changes s (s, err e)
unchanged s e = ((λ e' h. refl), inl refl)

set_state-Changes :
    (s : Atomics) (n : ℕ) (o : Option Atomics)
    → ((s' : Atomics) → o ≡ some s' → RefMoves s.ref_count s'.ref_count)
    → Changes s (set_state (count_operation s) n o)
set_state-Changes s n none h = ((λ e g. refl), inl refl)
set_state-Changes s n (some s') h = ((λ e g. absurd (cc)), h s' refl)

advanced-Changes : (s : Atomics) (n : ℕ) (x : Scanned) → Changes s (advanced_command s n x)
unfolding advanced_command
advanced-Changes s n no_word = unchanged s einval
advanced-Changes s n (word op) =
    set_state-Changes s n _ (advanced_operation-RefMoves op 0 (count_operation s))
advanced-Changes s n (word_and_number op v) =
    set_state-Changes s n _ (advanced_operation-RefMoves op v (count_operation s))

set_counter-Changes :
    (s : Atomics) (n : ℕ) (o : Option ℕ) → Changes s (set_counter (count_operation s) n o)
set_counter-Changes s n none = ((λ e g. refl), inl refl)
set_counter-Changes s n (some v) = ((λ e g. absurd (cc)), inl refl)

basic-Changes : (s : Atomics) (n : ℕ) (x : Scanned) → Changes s (basic_command s n x)
unfolding basic_command
basic-Changes s n no_word = unchanged s einval
basic-Changes s n (word op) = set_counter-Changes s n _
basic-Changes s n (word_and_number op v) = set_counter-Changes s n _

change_bit_of-Changes :
    (s : Atomics) (n b : ℕ) (o : Option (Bool → Bool))
    → Changes s (change_bit_of (count_operation s) n b o)
change_bit_of-Changes s n b none = ((λ e g. refl), inl refl)
change_bit_of-Changes s n b (some f) = ((λ e g. absurd (cc)), inl refl)

bits-Changes : (s : Atomics) (n : ℕ) (x : Scanned) → Changes s (bits_command s n x)
unfolding bits_command
bits-Changes s n no_word = unchanged s einval
bits-Changes s n (word op) = unchanged s einval
bits-Changes s n (word_and_number op b) =
    if-Changes s (leb (2 ^ 31) b || leb 64 b) (change_bit_of-Changes s n b (bit_operation op))
  where
    if-Changes :
        (s : Atomics) {x : Atomics × Result ℕ} (t : Bool)
        → Changes s x
        → Changes s (if t then (s, err einval) else x)
    if-Changes s true h = unchanged s einval
    if-Changes s false h = h

with_input-Changes :
    (s : Atomics) (f : Scanned → Atomics × Result ℕ) (sscanf : List ℕ → Scanned)
    (text : Result (List ℕ))
    → ((x : Scanned) → Changes s (f x))
    → Changes s (with_input s f sscanf text)
with_input-Changes s f sscanf (err e) h = unchanged s e
with_input-Changes s f sscanf (ok t) h = h (sscanf t)

serve-Changes : (sscanf : List ℕ → Scanned) (c : Call) (s : Atomics) → Changes s (serve sscanf c s)
unfolding serve atomic_basic_write atomic_advanced_write atomic_bits_write
serve-Changes sscanf (basic u n) s = with_input-Changes s _ sscanf _ (basic-Changes s n)
serve-Changes sscanf (advanced u n) s = with_input-Changes s _ sscanf _ (advanced-Changes s n)
serve-Changes sscanf (bits u n) s = with_input-Changes s _ sscanf _ (bits-Changes s n)

-- A write to any of the three files that reports an error has changed nothing, except that it may
-- have been counted as an operation.
pub serve-err :
    (sscanf : List ℕ → Scanned) (c : Call) (s s' : Atomics) (e : Errno)
    → serve sscanf c s ≡ (s', err e)
    → s' ≡ record s { operations_count = s'.operations_count }
serve-err sscanf c s s' e h =
    let (kept, _) = serve-Changes sscanf c s in
    let state : (serve sscanf c s).0 ≡ s' = ap (λ x. x.0) h in
    sym state
    ∙ kept e (ap (λ x. x.1) h)
    ∙ ap (λ x. record s { operations_count = x.operations_count }) state

RefMoves-bounds :
    (r r' n : ℕ) → RefMoves r r' → 1 ≤ r → r ≤ n → n + 1 < 2 ^ 32 → (1 ≤ r') × (r' ≤ n + 1)
RefMoves-bounds r r' n (inl e) low high few = (omega (arith, e), omega (arith, e))
RefMoves-bounds r r' n (inr (inl e)) low high few = (omega (arith, e), omega (arith, e))
RefMoves-bounds r r' n (inr (inr e)) low high few = (ground (arith, e), ground (arith, e))

-- Where at least one reference and at most `n` are held, a sequence of writes of any kind to the
-- three files, short enough that `n` and their number together stay below 2 ^ 32, leaves at least
-- one reference and at most one more per write.
pub serve_all-ref_count :
    (sscanf : List ℕ → Scanned) (cs : List Call) (s : Atomics) (n : ℕ)
    → 1 ≤ s.ref_count
    → s.ref_count ≤ n
    → n + length cs < 2 ^ 32
    → (1 ≤ (serve_all sscanf cs s).ref_count) × ((serve_all sscanf cs s).ref_count ≤ n + length cs)
unfolding serve_all
serve_all-ref_count sscanf [] s n low high few = (low, omega arith)
serve_all-ref_count sscanf (c ∷ cs) s n low high few =
    let (_, moves) = serve-Changes sscanf c s in
    let (low', high') = RefMoves-bounds s.ref_count _ n moves low high (omega arith) in
    let (low2, high2) =
      serve_all-ref_count sscanf cs ((serve sscanf c s).0) (n + 1) low' high' (omega arith) in
    (low2, omega arith)
