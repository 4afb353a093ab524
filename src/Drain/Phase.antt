-- ===== src/Drain/Phase.antt =====
-- The phase of the consumer pointer flips every time round, so a ring of entries that does not
-- change is emptied within one round.
use native.Mathlib.Nat.{add-zero, add-mod_right, add-div_right}
use schedra_nic.Prelude.{
  ℕ, ◌+◌, ◌*◌, ◌-◌, ◌/◌, ◌%◌, ◌^◌, ◌≤◌, ◌<◌, ◌≡◌, refl, ap, ◌∙◌, Bool, true, false, not, ◌==◌,
  bit_and, arith, and_mask, and_bit, two_pow_pos, Bool-cases, inl, inr, ℕ_discrete,
}
use schedra_nic.Struct.{Bytes, word}
use schedra_nic.Drain.{truth, same_bool, is_empty}

pub truth_digit : (x p : ℕ) → 0 < p → truth (x % 2 * p) ≡ (x % 2 == 1)
truth_digit x p h = elim (ℕ_discrete (x % 2) 0) [
  | yes e ↦ rw e (ground arith)
  | no ne ↦ let e : x % 2 ≡ 1 = omega arith in rw e (ground arith)
]

next_parity : (x : ℕ) → ((x + 1) % 2 == 1) ≡ not (x % 2 == 1)
next_parity x = ground arith

same_bool-not : (a b : Bool) → same_bool a (not b) ≡ not (same_bool a b)
same_bool-not true b = refl
same_bool-not false b = refl

module _ (buf : Bytes) (k size size_mask stride : ℕ) (s : size ≡ 2 ^ k)
    (m : size_mask ≡ 2 ^ k - 1) where
  same_index : (c : ℕ) → bit_and (c + size) size_mask ≡ bit_and c size_mask
  same_index c = rw (s, m, and_mask k (c + 2 ^ k), and_mask k c) (add-mod_right c (2 ^ k))

  phase_flips : (c : ℕ) → truth (bit_and (c + size) size) ≡ not (truth (bit_and c size))
  phase_flips c =
      rw
        (
          s,
          and_bit k (c + 2 ^ k),
          and_bit k c,
          add-div_right c (two_pow_pos k),
          truth_digit (c / 2 ^ k + 1) (2 ^ k) (two_pow_pos k),
          truth_digit (c / 2 ^ k) (2 ^ k) (two_pow_pos k),
        )
        (next_parity (c / 2 ^ k))

  -- An entry that is new at one pointer is not new one round later, and conversely.
  pub is_empty-round :
      (c : ℕ)
      → is_empty buf size size_mask stride (c + size) ≡ not (is_empty buf size size_mask stride c)
  unfolding is_empty
  is_empty-round c =
      rw (same_index c, phase_flips c)
        (same_bool-not (truth (bit_and (word buf (bit_and c size_mask * stride + 28) 4) 0x80000000))
          (truth (bit_and c size)))

  -- Within one round from any pointer there is an entry with nothing new.
  pub empty_within_round :
      (c : ℕ) → (n : ℕ) × (n ≤ size) × (is_empty buf size size_mask stride (c + n) ≡ true)
  empty_within_round c = elim (Bool-cases (is_empty buf size size_mask stride c)) [
    | inl e ↦ (0, omega arith, ap (is_empty buf size size_mask stride) (add-zero c) ∙ e)
    | inr n ↦ (size, omega arith, is_empty-round c ∙ ap not n)
  ]
