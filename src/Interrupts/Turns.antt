-- ===== src/Interrupts/Turns.antt =====
-- No interrupt is lost on its way to the handler; and which lines an edge reports.
use schedra_nic.Prelude.{
  ℕ, zero, suc, ◌+◌, ◌*◌, bit_and-zero, ◌/◌, ◌%◌, ◌^◌, ◌≡◌, refl, ap, ◌∙◌, Bool, true, ◌&&◌, ◌==◌,
  ltb, arith, replicate, range_from, bit_and, and_bit, two_pow_pos, leb, ℕ_discrete,
}
use schedra_nic.Drain.{truth}
use schedra_nic.Resource.Order.{elem}
use schedra_nic.Drain.Phase.{truth_digit}
use schedra_nic.Interrupts.{Interrupt, run_once, run, raised, edge_interrupts, and_not}

-- An interrupt with a handler, woken with its queue as it is: the handler is called once for each
-- entry, with the interrupt's index, and the queue is empty when the task waits again.
pub all_handled :
    (irq : Interrupt)
    → irq.handler ≡ true
    → run (irq.queue + 1) irq ≡ (replicate irq.queue irq.index, record irq { queue = 0 })
unfolding run run_once
all_handled irq h = by_length irq.queue irq refl h
  where
    by_length :
        (n : ℕ) (irq : Interrupt)
        → irq.queue ≡ n
        → irq.handler ≡ true
        → run (n + 1) irq ≡ (replicate n irq.index, record irq { queue = 0 })
    by_length zero irq e h = ground (arith, e)
    by_length (suc n) irq e h = ground (arith, e, h, by_length n (record irq { queue = n }) refl h)

-- A line of the signal is high.
abbrev pub is_high : ℕ → ℕ → Bool
is_high val x = val / 2 ^ x % 2 == 1

line_bit : (val x : ℕ) → truth (bit_and val (1 * 2 ^ x)) ≡ is_high val x
line_bit val x =
    ap (λ p. truth (bit_and val p)) one_times
    ∙ ap truth (and_bit x val)
    ∙ truth_digit (val / 2 ^ x) (2 ^ x) (two_pow_pos x)
  where
    one_times : 1 * 2 ^ x ≡ 2 ^ x
    one_times = omega arith

raised_lem :
    (edge j a n : ℕ)
    → elem j (raised edge (range_from a n)) ≡ ((leb a j && ltb j (a + n)) && is_high edge j)
unfolding raised
raised_lem edge j a zero = ground arith
raised_lem edge j a (suc n) = elim (ℕ_discrete a j) [
  | yes e ↦ ground (arith, e, line_bit edge a, ap (is_high edge) e, raised_lem edge j (a + 1) n)
  | no ne ↦ ground (arith, ne, line_bit edge a, raised_lem edge j (a + 1) n)
]

-- On a change of the signal every line that is high is reported, also one that was high before.
pub edge_interrupts_lem :
    (count val x : ℕ) → elem x (edge_interrupts count val) ≡ (ltb x count && is_high val x)
unfolding edge_interrupts
edge_interrupts_lem count val x =
    let all : and_not val 0 ≡ val = omega (arith, bit_and-zero val val (omega arith)) in
    rw all (ground (arith, raised_lem val x 0 count))
