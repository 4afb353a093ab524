-- ===== src/Prelude/Bits.antt =====
-- Python's `&`, `|`, `<<` and `>>` on the non-negative integers, for masks and fields of any width.
use Prim.Native.Nat.{
  ℕ, zero, suc, ◌+◌, ◌-◌, ◌*◌, ◌/◌, ◌%◌, ◌^◌, ◌≤◌, ◌<◌, min, max, bit_and, bit_or, digits,
  bit_and-bitwise, bit_or-bitwise,
}
use mathlib.Core.Path.{◌≡◌, refl, ap, sym, ◌∙◌}
use native.Mathlib.Nat.{pow-suc, mul-add-mod_self_right, mod-eq_of_lt, div-div-eq-div-mul, mul_comm}
use native.Mathlib.Omega.{arith}

abbrev pub shl : ℕ → ℕ → ℕ
shl x k = x * 2 ^ k

abbrev pub shr : ℕ → ℕ → ℕ
shr x k = x / 2 ^ k

-- Both operations go digit by digit on a bound for the number of digits, which plays no part once
-- it is large enough.
module _ (rest : ℕ → ℕ) (op : ℕ → ℕ → ℕ) where
  no_digits : (bound y : ℕ) → digits rest op bound zero y ≡ rest y
  no_digits zero y = refl
  no_digits (suc bound) y = refl

  pub digits-bound :
      (bound other x y : ℕ)
      → x ≤ bound
      → x ≤ other
      → digits rest op bound x y ≡ digits rest op other x y
  digits-bound bound other zero y l r = no_digits bound y ∙ sym (no_digits other y)
  digits-bound zero other (suc x) y l r = absurd (omega arith)
  digits-bound (suc bound) zero (suc x) y l r = absurd (omega arith)
  digits-bound (suc bound) (suc other) (suc x) y l r =
      ap (λ high. high * 2 + op (suc x % 2) (y % 2))
        (digits-bound bound other (suc x / 2) (y / 2) (omega arith) (omega arith))

pub zero-bit_or : (y : ℕ) → bit_or 0 y ≡ y
zero-bit_or y = bit_or-bitwise 0 y

-- The lowest digit, and the rest.
pub bit_and_step : (x y : ℕ) → bit_and x y ≡ bit_and (x / 2) (y / 2) * 2 + min (x % 2) (y % 2)
bit_and_step zero y = omega (arith, bit_and-bitwise 0 y, bit_and-bitwise 0 (y / 2))
bit_and_step (suc x) y =
    bit_and-bitwise (suc x) y
    ∙ ap (λ high. high * 2 + min (suc x % 2) (y % 2))
        (digits-bound (λ _. zero) min x (suc x / 2) (suc x / 2) (y / 2) (omega arith) (omega arith)
          ∙ sym (bit_and-bitwise (suc x / 2) (y / 2)))

pub bit_or_step : (x y : ℕ) → bit_or x y ≡ bit_or (x / 2) (y / 2) * 2 + max (x % 2) (y % 2)
bit_or_step zero y = omega (arith, zero-bit_or y, zero-bit_or (y / 2))
bit_or_step (suc x) y =
    bit_or-bitwise (suc x) y
    ∙ ap (λ high. high * 2 + max (suc x % 2) (y % 2))
        (digits-bound (λ z. z) max x (suc x / 2) (suc x / 2) (y / 2) (omega arith) (omega arith)
          ∙ sym (bit_or-bitwise (suc x / 2) (y / 2)))

pub bit_and-zero : (k x : ℕ) → x ≤ k → bit_and x 0 ≡ 0
bit_and-zero k zero l = bit_and-bitwise 0 0
bit_and-zero zero (suc x) l = absurd (omega arith)
bit_and-zero (suc k) (suc x) l =
    omega (arith, bit_and-zero k (suc x / 2) (omega arith), bit_and_step (suc x) 0)

pub two_pow_pos : (k : ℕ) → 0 < 2 ^ k
two_pow_pos zero = omega arith
two_pow_pos (suc k) = omega (arith, pow-suc 2 k, two_pow_pos k)

mod_of_parts : (m q r x : ℕ) → x ≡ q * m + r → r < m → x % m ≡ r
mod_of_parts m q r x e h = rw (e, mul-add-mod_self_right q m r) (mod-eq_of_lt h)

halve_mod : (p x : ℕ) → 0 < p → x % (p * 2) ≡ (x / 2) % p * 2 + x % 2
halve_mod p x h =
    mod_of_parts (p * 2) (x / 2 / p) ((x / 2) % p * 2 + x % 2) x (ground arith) (ground arith)

-- Masking by `2 ** k - 1` is reduction modulo `2 ** k`.
pub and_mask : (k x : ℕ) → bit_and x (2 ^ k - 1) ≡ x % 2 ^ k
and_mask zero x = omega (arith, bit_and-zero x x (omega arith))
and_mask (suc k) x =
    rw (pow-suc 2 k, bit_and_step x (2 ^ k * 2 - 1), half_mask, and_mask k (x / 2))
      (omega (arith, halve_mod (2 ^ k) x (two_pow_pos k), two_pow_pos k))
  where
    half_mask : (2 ^ k * 2 - 1) / 2 ≡ 2 ^ k - 1
    half_mask = omega (arith, two_pow_pos k)

-- A test of one bit.
pub and_bit : (k x : ℕ) → bit_and x (2 ^ k) ≡ x / 2 ^ k % 2 * 2 ^ k
and_bit zero x = omega (arith, bit_and_step x 1, bit_and-zero (x / 2) (x / 2) (omega arith))
and_bit (suc k) x =
    rw (pow-suc 2 k, bit_and_step x (2 ^ k * 2), half_bit, and_bit k (x / 2))
      (rw (div-div-eq-div-mul x 2 (2 ^ k), mul_comm 2 (2 ^ k)) (omega arith))
  where
    half_bit : 2 ^ k * 2 / 2 ≡ 2 ^ k
    half_bit = omega arith

bit_or-zero : (k a : ℕ) → a ≤ k → bit_or a 0 ≡ a
bit_or-zero k zero h = zero-bit_or 0
bit_or-zero zero (suc a) h = absurd (omega arith)
bit_or-zero (suc k) (suc a) h =
    omega (arith, bit_or_step (suc a) 0, bit_or-zero k (suc a / 2) (omega arith))

-- Fields that do not overlap add up.
pub or_fields : (k h l : ℕ) → l < 2 ^ k → bit_or (h * 2 ^ k) l ≡ h * 2 ^ k + l
or_fields zero h l lt = rw (zero_low, whole_high, bit_or-zero h h (omega arith)) (omega arith)
  where
    zero_low : l ≡ 0
    zero_low = omega arith

    whole_high : h * 2 ^ 0 ≡ h
    whole_high = omega arith
or_fields (suc k) h l lt =
    rw (pow-suc 2 k, bit_or_step (h * (2 ^ k * 2)) l, half_high, or_fields k h (l / 2) half_low)
      (omega arith)
  where
    half_high : h * (2 ^ k * 2) / 2 ≡ h * 2 ^ k
    half_high = omega arith

    half_low : l / 2 < 2 ^ k
    half_low = omega (arith, pow-suc 2 k)
