-- ===== src/Shared/Conversation.antt =====
-- The client and the shared memory device together.
use kernel_programming.Base.{
  ℕ, ◌+◌, ◌-◌, ◌%◌, ◌^◌, ◌≤◌, ◌≡◌, refl, ap, ◌∙◌, inl, inr, Bool-cases, List, [], ◌∷◌, codes, ◌==◌,
  if◌then◌else◌, replicate, length-replicate, length, length-append, take, take_all, drop,
  until_nul, length-until_nul, until_nul-take, copied_text, strncpy_bytes, length-strncpy_bytes,
  strcmp_equal, splice, length-splice, write_at-within, some, ok, arith,
}
use kernel_programming.Shared.{SharedMemDevice, msg_size, shared_mem_ioctl, echo}
use kernel_programming.Shared.Echo.{IsSized, process_message_lem}
use kernel_programming.Shared.Client.{exchange, cut_line, interactive}

-- The answers to the messages, the first of which has the number after `count`.
unfoldable pub answers : (print_lu : ℕ → List ℕ) (count : ℕ) (lines : List (List ℕ)) → List (List ℕ)
answers print_lu count [] = []
answers print_lu count (line ∷ lines) =
    let next : ℕ = (count + 1) % 2 ^ 64 in
    let rest : List (List ℕ) = answers print_lu next lines in
    if strcmp_equal (cut_line line) (codes "quit")
    then []
    else until_nul (echo print_lu next (cut_line line)) ∷ rest

cut_line-string : (cs : List ℕ) → until_nul (cut_line cs) ≡ cut_line cs
unfolding cut_line until_nul
cut_line-string [] = refl
cut_line-string (c ∷ cs) = elim (Bool-cases (c == 0)) [
  | inl e ↦ rw e
  | inr e ↦ elim (Bool-cases (c == b'\n')) [
    | inl e' ↦ rw (e, e')
    | inr e' ↦ rw (e, e', e, cut_line-string cs)
  ]
]

length-cut_line : (cs : List ℕ) → length (cut_line cs) ≤ length cs
unfolding cut_line
length-cut_line [] = omega arith
length-cut_line (c ∷ cs) = ground (arith, length-cut_line cs)

-- A message of at most 511 bytes is answered by its echo, whole.
exchange_lem :
    (print_lu : ℕ → List ℕ) (message : List ℕ) (dev : SharedMemDevice)
    → ((n : ℕ) → length (print_lu n) ≤ 20)
    → length message ≤ 511
    → IsSized dev
    → (dev' : SharedMemDevice) × (exchange print_lu message dev
        ≡ some (record {
          device = dev';
          response =
              ok (until_nul (echo print_lu ((dev.msg_count + 1) % 2 ^ 64) (until_nul message)));
        }))
      × IsSized dev'
      × (dev'.msg_count ≡ (dev.msg_count + 1) % 2 ^ 64)
unfolding exchange shared_mem_ioctl splice
exchange_lem print_lu message dev lu short sized =
    let count : ℕ = (dev.msg_count + 1) % 2 ^ 64 in
    let zeros : List ℕ = replicate msg_size 0 in
    let text : List ℕ = strncpy_bytes (msg_size - 1) message in
    let b1 : List ℕ = splice msg_size zeros dev.shared_buffer in
    let b2 : List ℕ = splice 0 text b1 in
    let b3 : List ℕ = splice (msg_size - 1) (0 ∷ []) b2 in
    let n0 : length zeros ≡ msg_size = length-replicate msg_size 0 in
    let n1 : length b1 ≡ length dev.shared_buffer =
      length-splice msg_size zeros dev.shared_buffer in
    let n2 : length b2 ≡ length b1 = length-splice 0 text b1 in
    let n3 : length b3 ≡ length b2 = length-splice (msg_size - 1) (0 ∷ []) b2 in
    let nt : length text ≡ msg_size - 1 = length-strncpy_bytes (msg_size - 1) message in
    let sent : SharedMemDevice = record { shared_buffer = b3; msg_count = dev.msg_count } in
    let (dev', e, sized', counted, text') =
      process_message_lem print_lu sent (n3 ∙ n2 ∙ n1 ∙ sized) in
    let m : List ℕ = until_nul message in
    let few : length m ≤ 511 = omega (arith, length-until_nul message) in
    let got : until_nul (take 4095 b3) ≡ m =
      until_nul-take 4095 b3
      ∙ ap (take 4095) (copied_text 4095 message b1 (omega (arith, n1, sized)))
      ∙ ap (take 4095) (take_all 4095 m (omega (arith, few)))
      ∙ take_all 4095 m (omega (arith, few)) in
    let fits : length (echo print_lu count m) ≤ 4095 =
      rw (length-append, length-append, length-append) (omega (arith, lu count, few)) in
    let response : until_nul (drop 4096 dev'.shared_buffer) ≡ until_nul (echo print_lu count m) =
      text'
      ∙ ap (λ t. until_nul (take 4095 (echo print_lu dev'.msg_count t))) got
      ∙ ap (λ c. until_nul (take 4095 (echo print_lu c m))) counted
      ∙ ap until_nul (take_all 4095 (echo print_lu count m) fits) in
    (
      dev',
      rw
          (
            write_at-within dev.shared_buffer msg_size zeros (omega (arith, n0, sized)),
            write_at-within b1 0 text (omega (arith, nt, n1, sized)),
            write_at-within b2 (msg_size - 1) (0 ∷ []) (omega (arith, n2, n1, sized)),
            e,
          )
          (ap (λ t. some (record { device = dev'; response = ok t })) response),
      sized',
      counted,
    )

-- fgets gives at most 511 bytes a line.
abbrev pub Short : List (List ℕ) → Type 0
Short [] = Unit {0}
Short (line ∷ lines) = (length line ≤ 511) × Short lines

-- Any session in the interactive mode, with lines of at most 511 bytes as fgets gives them, returns:
-- it has printed an answer to each line up to the first quit or the end, in order, numbered on from
-- the device's count modulo 2 ^ 64, and each with the whole text of its line. That is where %lu
-- prints at most 20 characters.
pub interactive-answers :
    (print_lu : ℕ → List ℕ) (lines : List (List ℕ)) (dev : SharedMemDevice)
    → ((n : ℕ) → length (print_lu n) ≤ 20)
    → Short lines
    → IsSized dev
    → interactive print_lu lines dev ≡ some (answers print_lu dev.msg_count lines)
unfolding interactive answers
interactive-answers print_lu [] dev lu short sized = refl
interactive-answers print_lu (line ∷ lines) dev lu (here, later) sized =
    elim (Bool-cases (strcmp_equal (cut_line line) (codes "quit"))) [
      | inl e ↦ rw e refl
      | inr e ↦
          let cut : length (cut_line line) ≤ 511 = omega (arith, length-cut_line line, here) in
          let (dev', x, sized', counted) = exchange_lem print_lu (cut_line line) dev lu cut sized in
          let rest = interactive-answers print_lu lines dev' lu later sized' in
          rw (e, x, rest, counted, cut_line-string line) refl
    ]
