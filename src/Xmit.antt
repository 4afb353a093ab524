-- ===== src/Xmit.antt =====
-- `Interface.start_xmit` of tb/mqnic_core_pcie_us_schedule/mqnic.py, from its call, or from the
-- wake-up of a sender that waits, to the packet that is sent or to the next wait.
pub mod Command
pub mod Send
mod Tests
use schedra_nic.Prelude.{
  ℕ, ◌+◌, Bool, false, List, Option, none, some, bit_or, shl, ltb, if◌then◌else◌, length, get_elem?,
}
use schedra_nic.Device.{Result, ok, err, guard, assertion_error, index_error, ◌>>=◌, ◌>>◌}
use schedra_nic.Struct.{Bytes}
use schedra_nic.Packets.{Packets}
use schedra_nic.Txq.{Txq, Sent, tx_transmit}

-- The checksum command: both places are given, or there is none.
unfoldable pub csum_command : (csum_start csum_offset : Option ℕ) → ℕ
csum_command none csum_offset = 0
csum_command (some start) none = 0
csum_command (some start) (some offset) = bit_or (bit_or 0x8000 (shl offset 8)) start

-- `self.txq[ring_index]`, the first ring if none is asked for; IndexError out of range.
unfoldable pub ring_of : (tx_ring : Option ℕ) → List Txq → Result Txq
ring_of none rings = elim (get_elem? rings 0) [ none ↦ err index_error | some ring ↦ ok ring ]
ring_of (some i) rings = elim (get_elem? rings i) [ none ↦ err index_error | some ring ↦ ok ring ]

-- `ring.prod_ptr - ring.cons_ptr < ring.full_size`, as integers.
unfoldable pub has_space : Txq → Bool
has_space ring = ltb ring.prod_ptr (ring.full_size + ring.cons_ptr)

-- What the call has come to: it returned because the port is down, it waits for the ring's event,
-- which it has cleared, or the packet is sent.
pub data Outcome : Type 0 where
  port_down : Outcome
  waits : Txq → Outcome
  sent : Sent → Outcome

-- A round of the loop over the wait, and what follows it.
unfoldable pub attempt : (rank csum_cmd : ℕ) (skb : List ℕ) → Txq → Packets → Bytes → Result Outcome
attempt rank csum_cmd skb ring packets mem =
    let full : Result Outcome = ok (waits (record ring { clean_event = false })) in
    let room : Result Outcome = (do
      s ← tx_transmit skb rank csum_cmd ring packets mem
      ok (sent s)) in
    if has_space ring then room else full

-- Interface.start_xmit
unfoldable pub start_xmit :
    (port_up : Bool) (max_tx_mtu rank : ℕ) (tx_ring csum_start csum_offset : Option ℕ)
    (skb : List ℕ)
    → List Txq
    → Packets
    → Bytes
    → Result Outcome
start_xmit port_up max_tx_mtu rank tx_ring csum_start csum_offset skb rings packets mem =
    let up : Result Outcome = (do
      guard (ltb (length skb) max_tx_mtu) assertion_error
      ring ← ring_of tx_ring rings
      attempt rank (csum_command csum_start csum_offset) skb ring packets mem) in
    if port_up then up else ok port_down
