-- ===== src/Xmit/Send.antt =====
-- What a call of `Interface.start_xmit` comes to, on every branch.
use schedra_nic.Prelude.{
  ℕ, ◌+◌, ◌^◌, ◌≤◌, ◌<◌, ◌≡◌, refl, Bool, true, false, Bool-cases, inl, inr, List, Option, arith,
  ltb, length, lt→ltb, ltb→lt,
}
use schedra_nic.Device.{ok}
use schedra_nic.Struct.{Bytes}
use schedra_nic.Packets.{Packets, pkt_buf_size}
use schedra_nic.Packets.Ownership.{Owns, available}
use schedra_nic.Ring.Slots.{holds}
use schedra_nic.Txq.{Txq, Sent}
use schedra_nic.Txq.Transmit.{IsOpen, CanSend, Transmitted, tx_transmit_lem}
use schedra_nic.Xmit.{
  csum_command, ring_of, has_space, Outcome, port_down, waits, sent, attempt, start_xmit,
}

module _ (skb : List ℕ) (csum_cmd : ℕ) {ring : Txq} {packets : Packets} (other : ℕ → ℕ)
    (open_ring : IsOpen ring) (fits : length skb + 10 ≤ pkt_buf_size) (csum : csum_cmd < 2 ^ 16)
    (owned : Owns packets (λ j. other j + holds ring.tx_info j))
    (buffers : 0 < available packets) where
  -- The outcomes: nothing if the port is down; a wait, with the ring unchanged but for its event, if
  -- the ring has no space; else the packet is sent, with all that `tx_transmit` promises.
  pub data Xmitted (port_up : Bool) (rank : ℕ) : Outcome → Type 0 where
    when_down : port_up ≡ false → Xmitted port_up rank port_down
    when_full :
        port_up ≡ true
        → ring.full_size + ring.cons_ptr ≤ ring.prod_ptr
        → Xmitted port_up rank (waits (record ring { clean_event = false }))
    when_sent :
        {s : Sent}
        → port_up ≡ true
        → (can : CanSend skb csum_cmd ring) → Transmitted other open_ring can owned buffers rank s
        → Xmitted port_up rank (sent s)

  attempt_lem :
      (rank : ℕ) (mem : Bytes)
      → rank < 2 ^ 29
      → (o : Outcome) × (attempt rank csum_cmd skb ring packets mem ≡ ok o) × Xmitted true rank o
  unfolding attempt has_space
  attempt_lem rank mem low =
      elim (Bool-cases (ltb ring.prod_ptr (ring.full_size + ring.cons_ptr))) [
        | inl space ↦
            let can : CanSend skb csum_cmd ring = record {
              room = ltb→lt ring.prod_ptr (ring.full_size + ring.cons_ptr) space;
              fits = fits;
              csum = csum;
            } in
            let (s, e, t) = tx_transmit_lem other open_ring can owned buffers rank mem low in
            (sent s, rw (space, e) refl, when_sent refl can t)
        | inr none_left ↦ (
          waits (record ring { clean_event = false }),
          rw none_left refl,
          when_full refl (ground (arith, none_left)),
        )
      ]

-- A packet below the MTU, with a rank below 2 ^ 29, of which the buffers have room, on an open ring while a packet buffer is
-- available: `start_xmit` raises nothing, and comes to one of the outcomes of `Xmitted`.
pub start_xmit_lem :
    (port_up : Bool) (max_tx_mtu rank : ℕ) (tx_ring csum_start csum_offset : Option ℕ)
    (skb : List ℕ) (rings : List Txq) {ring : Txq} {packets : Packets} (mem : Bytes) (other : ℕ → ℕ)
    → rank < 2 ^ 29
    → length skb < max_tx_mtu
    → ring_of tx_ring rings ≡ ok ring
    → (open_ring : IsOpen ring) → (fits : length skb + 10 ≤ pkt_buf_size)
    → (csum : csum_command csum_start csum_offset < 2 ^ 16)
    → (owned : Owns packets (λ j. other j + holds ring.tx_info j))
    → (buffers : 0 < available packets)
    → (o : Outcome) × (start_xmit port_up max_tx_mtu rank tx_ring csum_start csum_offset skb rings
          packets mem
        ≡ ok o)
      × Xmitted skb
          (csum_command csum_start csum_offset)
          other
          open_ring
          fits
          csum
          owned
          buffers
          port_up
          rank
          o
unfolding start_xmit
start_xmit_lem false max_tx_mtu rank tx_ring csum_start csum_offset skb rings mem other low small at
      open_ring fits csum owned buffers =
    (port_down, refl, when_down refl)
start_xmit_lem true max_tx_mtu rank tx_ring csum_start csum_offset skb rings mem other low small at
      open_ring fits csum owned buffers =
    let (o, e, x) =
      attempt_lem skb (csum_command csum_start csum_offset) other open_ring fits csum owned buffers
        rank mem low in
    (o, rw (lt→ltb (length skb) max_tx_mtu small, at, e) refl, x)
