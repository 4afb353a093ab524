-- ===== src/Desc/Blocks.antt =====
-- Blocks of descriptors that stand apart: what one names is left alone by the writes of another.
use native.Mathlib.Nat.{mul-le-mul_right}
use schedra_nic.Prelude.{
  ℕ, zero, suc, ◌+◌, ◌*◌, ◌≤◌, ◌≡◌, ◌≢◌, refl, ap₂, ◌++◌, arith, inl, inr, dec_lt,
}
use schedra_nic.Regs.{mqnic_desc_size}
use schedra_nic.Struct.{Bytes, peek, word}
use schedra_nic.Struct.Bytes.{Apart}
use schedra_nic.Desc.Gather.{gather}

-- Descriptors whose words are the same name the same bytes.
pub gather_agrees :
    (mem buf buf' : Bytes) (base k rounds : ℕ)
    → ((b w : ℕ)
        → base + k * mqnic_desc_size ≤ b
        → b + w ≤ base + (k + rounds) * mqnic_desc_size
        → word buf' b w ≡ word buf b w)
    → gather mem buf' base k rounds ≡ gather mem buf base k rounds
gather_agrees mem buf buf' base k zero same = refl
gather_agrees mem buf buf' base k (suc rounds) same =
    ap₂ ◌++◌
      (ap₂ (peek mem) (same (base + k * mqnic_desc_size + 8) 8 (omega arith) (omega arith))
        (same (base + k * mqnic_desc_size + 4) 4 (omega arith) (omega arith)))
      (gather_agrees mem buf buf' base (k + 1) rounds
        (λ b w l u. same b w (omega arith) (omega arith)))

-- The blocks of different slots stand apart.
pub blocks-Apart :
    (stride i j b w : ℕ)
    → i ≢ j
    → i * stride ≤ b
    → b + w ≤ i * stride + stride
    → Apart (j * stride) stride b w
blocks-Apart stride i j b w ne l u = elim (dec_lt i j) [
  | yes below ↦
      let le : (i + 1) * stride ≤ j * stride = mul-le-mul_right stride (omega arith) in
      inl (omega arith)
  | no above ↦
      let le : (j + 1) * stride ≤ i * stride = mul-le-mul_right stride (omega arith) in
      inr (omega arith)
]
