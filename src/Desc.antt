-- ===== src/Desc.antt =====
-- The descriptor blocks that `Txq.tx_transmit` and `Rxq.prepare_desc` of
-- tb/mqnic_core_pcie_us_schedule/mqnic.py write for one packet: the packet's bytes, cut into the
-- segments of a block of `desc_block_size` descriptors of 16 bytes.
pub mod Frame
pub mod Gather
pub mod Blocks
mod Tests
use schedra_nic.Prelude.{ℕ, zero, suc, ◌+◌, ◌-◌, ◌*◌, List, [], ◌∷◌, ◌==◌, ltb, if◌then◌else◌, min}
use schedra_nic.Device.{Result, ok, err, ◌>>=◌}
use schedra_nic.Regs.{mqnic_desc_size}
use schedra_nic.Struct.{Bytes, pack_into}

-- `min(length-offset, 4096) if k < self.desc_block_size-1 else length-offset`
abbrev pub segment : ℕ → ℕ → ℕ → ℕ
segment desc_block_size k left = if ltb k (desc_block_size - 1) then min left 4096 else left

-- `ptr+offset if seg else 0`
abbrev pub segment_ptr : ℕ → ℕ → ℕ
segment_ptr seg at = if seg == 0 then 0 else at

-- `for k in range(k, desc_block_size)`, with `rounds` rounds left: one descriptor a round, `base`
-- being `index*self.stride`. The formats `<4xLQ` and `<LLQ` (with 0 first) lay out the same bytes.
unfoldable pub write_segments :
    (desc_block_size base ptr length : ℕ) → ℕ → ℕ → ℕ → Bytes → Result Bytes
write_segments desc_block_size base ptr length zero k offset buf = ok buf
write_segments desc_block_size base ptr length (suc rounds) k offset buf = do
  let seg = segment desc_block_size k (length - offset)
  buf' ←
      pack_into buf (base + k * mqnic_desc_size)
        ((4, 0) ∷ (4, seg) ∷ (8, segment_ptr seg (ptr + offset)) ∷ [])
  write_segments desc_block_size base ptr length rounds (k + 1) (offset + seg) buf'

-- `min(length-offset, 42) if self.desc_block_size > 1 else length-offset`, at offset 0
abbrev pub first_segment : ℕ → ℕ → ℕ
first_segment desc_block_size length = if ltb 1 desc_block_size then min length 42 else length

-- The descriptor writes of `tx_transmit`: the first descriptor carries the checksum command.
unfoldable pub write_tx_desc : (desc_block_size base csum_cmd ptr length : ℕ) → Bytes → Result Bytes
unfolding write_segments
write_tx_desc desc_block_size base csum_cmd ptr length buf = do
  let seg = first_segment desc_block_size length
  buf' ← pack_into buf base ((2, 0) ∷ (2, csum_cmd) ∷ (4, seg) ∷ (8, segment_ptr seg ptr) ∷ [])
  write_segments desc_block_size base ptr length (desc_block_size - 1) 1 seg buf'

-- The descriptor writes of `prepare_desc`: the whole buffer, from the first descriptor on.
unfoldable pub write_rx_desc : (desc_block_size base ptr length : ℕ) → Bytes → Result Bytes
unfolding write_segments
write_rx_desc desc_block_size base ptr length buf =
    write_segments desc_block_size base ptr length desc_block_size 0 0 buf
