-- ===== src/Desc/Frame.antt =====
-- Reading one descriptor back, and that a block's later descriptors leave it alone.
use schedra_nic.Prelude.{ℕ, zero, suc, ◌+◌, ◌-◌, ◌*◌, ◌≡◌, ◌∙◌, ap, sym, inl, inr, [], ◌∷◌, arith}
use schedra_nic.Device.{ok, >>=-eq-ok}
use schedra_nic.Regs.{mqnic_desc_size}
use schedra_nic.Struct.{Bytes, word, poke, le_bytes, pack_into}
use schedra_nic.Struct.Bytes.{Apart, pack_into-cons, pack_into_first, pack_into-Apart}
use schedra_nic.Desc.{segment, segment_ptr, write_segments}

-- The fields of a descriptor, where the device reads them.
abbrev pub desc_csum : Bytes → ℕ → ℕ
desc_csum buf at = word buf (at + 2) 2

abbrev pub desc_len : Bytes → ℕ → ℕ
desc_len buf at = word buf (at + 4) 4

abbrev pub desc_addr : Bytes → ℕ → ℕ
desc_addr buf at = word buf (at + 8) 8

-- A descriptor written as `<LLQ` or `<4xLQ`.
pub plain_desc :
    (buf : Bytes) (at len addr : ℕ) {buf' : Bytes}
    → pack_into buf at ((4, 0) ∷ (4, len) ∷ (8, addr) ∷ []) ≡ ok buf'
    → (desc_len buf' at ≡ len) × (desc_addr buf' at ≡ addr)
plain_desc buf at len addr {buf'} h =
    let (_, h1) = pack_into-cons buf at 4 0 ((4, len) ∷ (8, addr) ∷ []) h in
    let m1 : Bytes = poke buf at (le_bytes 4 0) in
    let (_, h2) = pack_into-cons m1 (at + 4) 4 len ((8, addr) ∷ []) h1 in
    let m2 : Bytes = poke m1 (at + 4) (le_bytes 4 len) in
    (
      pack_into_first m1 (at + 4) 4 len ((8, addr) ∷ []) h1,
      ap (λ a. word buf' a 8) next ∙ pack_into_first m2 (at + 4 + 4) 8 addr [] h2,
    )
  where
    next : at + 8 ≡ at + 4 + 4
    next = omega arith

-- A descriptor written as `<HHLQ`.
pub csum_desc :
    (buf : Bytes) (at csum len addr : ℕ) {buf' : Bytes}
    → pack_into buf at ((2, 0) ∷ (2, csum) ∷ (4, len) ∷ (8, addr) ∷ []) ≡ ok buf'
    → (desc_csum buf' at ≡ csum) × (desc_len buf' at ≡ len) × (desc_addr buf' at ≡ addr)
csum_desc buf at csum len addr {buf'} h =
    let (_, h1) = pack_into-cons buf at 2 0 ((2, csum) ∷ (4, len) ∷ (8, addr) ∷ []) h in
    let m1 : Bytes = poke buf at (le_bytes 2 0) in
    let (_, h2) = pack_into-cons m1 (at + 2) 2 csum ((4, len) ∷ (8, addr) ∷ []) h1 in
    let m2 : Bytes = poke m1 (at + 2) (le_bytes 2 csum) in
    let (_, h3) = pack_into-cons m2 (at + 2 + 2) 4 len ((8, addr) ∷ []) h2 in
    let m3 : Bytes = poke m2 (at + 2 + 2) (le_bytes 4 len) in
    (
      pack_into_first m1 (at + 2) 2 csum ((4, len) ∷ (8, addr) ∷ []) h1,
      ap (λ a. word buf' a 4) at_len ∙ pack_into_first m2 (at + 2 + 2) 4 len ((8, addr) ∷ []) h2,
      ap (λ a. word buf' a 8) at_addr ∙ pack_into_first m3 (at + 2 + 2 + 4) 8 addr [] h3,
    )
  where
    at_len : at + 4 ≡ at + 2 + 2
    at_len = omega arith

    at_addr : at + 8 ≡ at + 2 + 2 + 4
    at_addr = omega arith

-- The next round of the loop, and what it was given.
pub write_segments-suc :
    (dbs base ptr length rounds k offset : ℕ) (buf : Bytes) {result : Bytes}
    → write_segments dbs base ptr length (suc rounds) k offset buf ≡ ok result
    → (buf' : Bytes) × (pack_into buf (base + k * mqnic_desc_size) (
          (4, 0)
          ∷ (4, segment dbs k (length - offset))
          ∷ (8, segment_ptr (segment dbs k (length - offset)) (ptr + offset))
          ∷ [])
        ≡ ok buf')
      × (write_segments dbs base ptr length rounds
            (k + 1)
            (offset + segment dbs k (length - offset))
            buf'
          ≡ ok result)
unfolding write_segments
write_segments-suc dbs base ptr length rounds k offset buf h = >>=-eq-ok _ _ h

write_segments-zero :
    (dbs base ptr length k offset : ℕ) (buf : Bytes) {result : Bytes}
    → write_segments dbs base ptr length zero k offset buf ≡ ok result
    → buf ≡ result
unfolding write_segments
write_segments-zero dbs base ptr length k offset buf h = cc

-- The loop from the k-th descriptor on changes nothing below it, nor past the block.
pub write_segments_frame :
    (dbs base ptr length rounds k offset : ℕ) (buf : Bytes) {result : Bytes} (b w : ℕ)
    → write_segments dbs base ptr length rounds k offset buf ≡ ok result
    → Apart (base + k * mqnic_desc_size) (rounds * mqnic_desc_size) b w
    → word result b w ≡ word buf b w
write_segments_frame dbs base ptr length zero k offset buf b w h a =
    ap (λ (t : Bytes). word t b w) (sym (write_segments-zero dbs base ptr length k offset buf h))
write_segments_frame dbs base ptr length (suc rounds) k offset buf b w h a =
    let (buf', p, rest) = write_segments-suc dbs base ptr length rounds k offset buf h in
    write_segments_frame dbs base ptr length rounds (k + 1)
      (offset + segment dbs k (length - offset)) buf' b w rest (later a)
    ∙ pack_into-Apart buf (base + k * mqnic_desc_size) _ b w p (first a)
  where
    later :
        Apart (base + k * 16) (suc rounds * 16) b w → Apart (base + (k + 1) * 16) (rounds * 16) b w
    later (inl l) = inl (omega arith)
    later (inr r) = inr (omega arith)

    first : Apart (base + k * 16) (suc rounds * 16) b w → Apart (base + k * 16) 16 b w
    first (inl l) = inl l
    first (inr r) = inr (omega arith)
