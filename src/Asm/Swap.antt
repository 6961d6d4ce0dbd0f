-- ===== src/Asm/Swap.antt =====
-- The swap of the assembly fragments.
use kernel_programming.Base.{
  ℕ, ◌+◌, ◌%◌, ◌^◌, ◌<◌, ◌≡◌, refl, sym, ap, ◌∙◌, inl, inr, Bool-cases, ◌==◌, if◌then◌else◌, some,
  false, ==_self, arith,
}
use kernel_programming.Asm.{
  Machine, rax, rbx, rcx, rdx, imm, variable, Operand, exec, exchange, swap_asm,
  example_swap_variables, set_reg, set_word, get,
}

abbrev exchanged : (m : Machine) (p q x y : ℕ) → Machine
exchanged m p q x y =
    set_word q x (set_word p y (set_reg rdx y (set_reg rcx x (set_reg rbx q (set_reg rax p m)))))

second_old :
    (m : Machine) (p q y : ℕ)
    → m.memory q ≡ some y
    → (if q == p then some y else m.memory q) ≡ some y
second_old m p q y hy = elim (Bool-cases (q == p)) [ inl e ↦ rw e refl | inr e ↦ rw (e, hy) refl ]

exchange_lem :
    (a b : Operand) (m : Machine) (p q x y : ℕ)
    → get m a ≡ some p
    → get (set_reg rax p m) b ≡ some q
    → p < 2 ^ 64
    → q < 2 ^ 64
    → m.memory p ≡ some x
    → m.memory q ≡ some y
    → exec (exchange a b) m ≡ some (exchanged m p q x y)
unfolding exec
exchange_lem a b m p q x y ha hb hp hq hx hy =
    let ep : (p + 0) % 2 ^ 64 ≡ p = omega arith in
    let eq : (q + 0) % 2 ^ 64 ≡ q = omega arith in
    rw (ha, hb, ep, hx, eq, hy, ep, hx, eq, second_old m p q y hy) refl

-- The assignment's swap, for parameters at any places a and b that hold pointers to mapped words:
-- each word then holds what the other held, also where both pointers are the same; and no other word
-- of the memory has changed.
pub swap_asm_lem :
    (a b p q x y c : ℕ) (m : Machine)
    → m.memory a ≡ some p
    → m.memory b ≡ some q
    → p < 2 ^ 64
    → q < 2 ^ 64
    → m.memory p ≡ some x
    → m.memory q ≡ some y
    → (m' : Machine) × (exec (swap_asm a b) m ≡ some m')
      × (m'.memory p ≡ some y)
      × (m'.memory q ≡ some x)
      × (m'.memory c ≡ (if c == q then some x else if c == p then some y else m.memory c))
unfolding swap_asm
swap_asm_lem a b p q x y c m ha hb hp hq hx hy = (
  exchanged m p q x y,
  exchange_lem (variable a) (variable b) m p q x y ha hb hp hq hx hy,
  (elim (Bool-cases (p == q)) [
    | inl e ↦
        let same : p ≡ q = ground arith in
        let values : some x ≡ some y = sym hx ∙ ap m.memory same ∙ hy in rw e values
    | inr e ↦ rw (e, ==_self p) refl
  ]),
  rw (==_self q) refl,
  refl,
)

-- The swap example, with its variables at any two mapped words: it returns, x is 84 and y is 42
-- where the words are two, and no other word has changed.
pub example_swap_variables_lem :
    (x y x0 y0 c : ℕ) (m : Machine)
    → x < 2 ^ 64
    → y < 2 ^ 64
    → (x == y) ≡ false
    → m.memory x ≡ some x0
    → m.memory y ≡ some y0
    → (m' : Machine) × (exec (example_swap_variables x y) m ≡ some m')
      × (m'.memory c ≡ (if c == y then some 42 else if c == x then some 84 else m.memory c))
unfolding example_swap_variables exec
example_swap_variables_lem x y x0 y0 c m lx ly apart hx hy =
    let m2 : Machine = set_word y 84 (set_word x 42 m) in
    let apart' : (y == x) ≡ false = ground arith in
    let at_x : m2.memory x ≡ some 42 = rw (apart, ==_self x) refl in
    let at_y : m2.memory y ≡ some 84 = rw (==_self y) refl in
    let swapped = exchange_lem (imm x) (imm y) m2 x y 42 84 refl refl lx ly at_x at_y in
    (
      exchanged m2 x y 42 84,
      rw (hx, apart', hy) swapped,
      elim (Bool-cases (c == y)) [
        | inl e ↦ rw e refl
        | inr e ↦ elim (Bool-cases (c == x)) [ inl e' ↦ rw (e, e') refl | inr e' ↦ rw (e, e') refl ]
      ],
    )
