-- ===== src/Ring.antt =====
-- What `class Txq` and `class Rxq` of tb/mqnic_core_pcie_us_schedule/mqnic.py share: a ring of slots
-- (`tx_info`, `rx_info`) under two pointers that only grow, masked to a slot's index.
pub mod Window
pub mod Slots
pub mod Release
pub mod Occupancy
mod Tests
use schedra_nic.Prelude.{
  ℕ, zero, suc, ◌+◌, ◌-◌, ◌*◌, ◌^◌, ◌/◌, ◌%◌, Bool, true, false, List, [], ◌∷◌, Option, none, some,
  ◌==◌, leb, if◌then◌else◌, get_elem?, set, bit_and,
}
use schedra_nic.Device.{Result, ok, err, index_error, out_of_fuel, ◌>>=◌}
use schedra_nic.Packets.{Packets, free_pkt}

-- A list of slots, each empty (None) or holding a packet buffer.
abbrev pub Slots : Type 0
Slots = List (Option ℕ)

-- `info[index]`, IndexError out of range
unfoldable pub slot_at : Slots → ℕ → Result (Option ℕ)
slot_at info index = elim (get_elem? info index) [ none ↦ err index_error | some s ↦ ok s ]

-- int.bit_length: the number of binary digits.
bit_length_fuel : ℕ → ℕ → ℕ
bit_length_fuel zero n = 0
bit_length_fuel (suc f) n = let rest = bit_length_fuel f (n / 2) in if n == 0 then 0 else rest + 1

unfoldable pub bit_length : ℕ → ℕ
unfolding bit_length_fuel
bit_length n = bit_length_fuel n n

-- `free_desc(index)`: the same text in both classes.
unfoldable pub free_desc : ℕ → Slots → Packets → Result (Slots × Packets)
free_desc index info packets = do
  pkt ← slot_at info index
  packets' ← free_pkt pkt packets
  ok (set info index none, packets')

-- `if ring.tx_info[ring_index]: break`; a packet buffer is never false.
abbrev pub stop_or : Result ℕ → ℕ → Option ℕ → Result ℕ
stop_or rest cons_ptr none = rest
stop_or rest cons_ptr (some pkt) = ok cons_ptr

-- "process ring": `while ring_cons_ptr != ring.prod_ptr`, stopping at the first slot that holds a
-- packet. The fuel bounds the rounds.
unfoldable pub advance : ℕ → Slots → (size_mask prod_ptr cons_ptr : ℕ) → Result ℕ
unfolding slot_at
advance zero info size_mask prod_ptr cons_ptr =
    if cons_ptr == prod_ptr then ok cons_ptr else err out_of_fuel
advance (suc fuel) info size_mask prod_ptr cons_ptr =
    let round = (do
      pkt ← slot_at info (bit_and cons_ptr size_mask)
      stop_or (advance fuel info size_mask prod_ptr (cons_ptr + 1)) cons_ptr pkt) in
    if cons_ptr == prod_ptr then ok cons_ptr else round

-- `while not self.empty()` of `free_buf`, the same text in both classes.
unfoldable pub free_buf :
    ℕ → (size_mask prod_ptr cons_ptr : ℕ) → Slots → Packets → Result (ℕ × Slots × Packets)
unfolding free_desc
free_buf zero size_mask prod_ptr cons_ptr info packets =
    if prod_ptr == cons_ptr then ok (cons_ptr, info, packets) else err out_of_fuel
free_buf (suc fuel) size_mask prod_ptr cons_ptr info packets =
    let round = (do
      (info', packets') ← free_desc (bit_and cons_ptr size_mask) info packets
      free_buf fuel size_mask prod_ptr (cons_ptr + 1) info' packets') in
    if prod_ptr == cons_ptr then ok (cons_ptr, info, packets) else round
