-- ===== src/Irq/Work.antt =====
-- The calculation of the thread handler, and the loading of the threaded interrupt demo.
use kernel_programming.Base.{ℕ, zero, suc, ◌+◌, ◌*◌, ◌%◌, ◌^◌, ◌<◌, ◌≡◌, ◌∙◌, arith, Bool}
use kernel_programming.Kernel.Resources.{Balanced}
use kernel_programming.Irq.{complex_loop, my_init, my_exit}

loop_sum :
    (rounds i result : ℕ)
    → 2 * result + 2 * (rounds * i) + rounds * rounds < 2 ^ 32
    → 2 * complex_loop rounds i result + rounds ≡ 2 * result + 2 * (rounds * i) + rounds * rounds
unfolding complex_loop
loop_sum zero i result h = omega arith
loop_sum (suc rounds) i result h =
    let product : suc rounds * i ≡ rounds * i + i = grind arith in
    let next : rounds * (i + 1) ≡ rounds * i + rounds = grind arith in
    let square : suc rounds * suc rounds ≡ rounds * rounds + rounds + rounds + 1 = grind arith in
    let small : (result + i) % 2 ^ 32 ≡ result + i = omega (arith, h, product) in
    let rest =
      loop_sum rounds (i + 1) ((result + i) % 2 ^ 32)
        (omega (arith, h, product, next, square, small)) in
    omega (arith, rest, product, next, square, small)

square_bound : (rounds : ℕ) → rounds < 2 ^ 16 → 2 * 0 + 2 * (rounds * 0) + rounds * rounds < 2 ^ 32
square_bound rounds h = grind arith

-- The loop that adds up the numbers from 0 is the closed form: up to 65535 rounds, of which the
-- source makes 10000, no sum wraps, and twice the result is rounds * (rounds - 1).
pub complex_loop-closed :
    (rounds : ℕ) → rounds < 2 ^ 16 → 2 * complex_loop rounds 0 0 + rounds ≡ rounds * rounds
complex_loop-closed rounds h = loop_sum rounds 0 0 (square_bound rounds h) ∙ grind arith

-- Whichever of the two calls fails: a failed initialisation holds nothing, and the exit function
-- releases what a successful one acquired.
pub my_init-Balanced :
    (request_threaded_irq proc_create : Bool)
    → Balanced (my_init request_threaded_irq proc_create) my_exit
unfolding my_init my_exit
my_init-Balanced request_threaded_irq proc_create = ground arith
