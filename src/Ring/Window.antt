-- ===== src/Ring/Window.antt =====
-- Positions of a window no longer than the ring fall into different slots.
use schedra_nic.Prelude.{ℕ, ◌+◌, ◌*◌, ◌/◌, ◌%◌, ◌≤◌, ◌<◌, ◌≡◌, ◌≢◌, arith, dec_lt}
use native.Mathlib.Nat.{div-add-mod, mul-le-mul_left}

-- Quotients that differ by one or more put the numbers a ring apart.
apart : (s P Q r p q : ℕ) → s * P + r ≡ p → s * Q + r ≡ q → P < Q → p + s ≤ q
apart s P Q r p q hp hq l = omega (arith, mul-le-mul_left s l)

pub mod-ne_of_window : (s p q : ℕ) → p < q → q < p + s → p % s ≢ q % s
mod-ne_of_window s p q h k e = elim (dec_lt (p / s) (q / s)) [
  | yes l ↦
      omega
        (arith, apart s (p / s) (q / s) (p % s) p q (div-add-mod p s) (rw e (div-add-mod q s)) l)
  | no l ↦
      let le : q / s ≤ p / s = omega arith in
      omega (arith, mul-le-mul_left s le, div-add-mod p s, div-add-mod q s)
]
