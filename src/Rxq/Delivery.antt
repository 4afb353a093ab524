-- ===== src/Rxq/Delivery.antt =====
-- `class Packet` of tb/mqnic_core_pcie_us_schedule/mqnic.py, and the interface's queue of received
-- packets.
use schedra_nic.Prelude.{
  ℕ, ◌+◌, ◌*◌, Bool, true, List, [], ◌∷◌, ◌++◌, Option, none, some, bit_and, min,
}
use schedra_nic.Device.{Result, ok, err, ◌>>=◌, type_error}
use schedra_nic.Packets.{pkt_buf_size}
use schedra_nic.Struct.{Bytes, word, peek}
use schedra_nic.Cq.{Cq}

-- `class Packet`: a received packet.
pub record Packet : Type 0 where
  pub payload : List ℕ
  pub queue : Option ℕ
  pub timestamp_ns : ℕ
  pub timestamp_s : ℕ
  pub rx_checksum : ℕ

-- A field of the completion at a pointer, by its offset in `<HHHxxLHHLBBHLL` and its width.
unfoldable pub cpl_field : Cq → (cons_ptr offset width : ℕ) → ℕ
cpl_field cq cons_ptr offset width =
    word cq.buf (bit_and cons_ptr cq.size_mask * cq.stride + offset) width

-- `pkt[:length]`, TypeError if the slot is empty. A slice ends at the end of the buffer.
abbrev pub payload_of : Bytes → Option ℕ → ℕ → Result (List ℕ)
payload_of mem none len = err type_error
payload_of mem (some pkt) len = ok (peek mem pkt (min len pkt_buf_size))

-- The packet that a completion delivers from its slot.
unfoldable pub packet_of :
    Bytes → Cq → (index : Option ℕ) → (cons_ptr : ℕ) → Option ℕ → Result Packet
packet_of mem cq index cons_ptr slot = do
  payload ← payload_of mem slot (cpl_field cq cons_ptr 4 2)
  ok (record {
    payload = payload;
    queue = index;
    timestamp_ns = cpl_field cq cons_ptr 8 4;
    timestamp_s = cpl_field cq cons_ptr 12 2;
    rx_checksum = cpl_field cq cons_ptr 14 2;
  })

-- `pkt_rx_queue` and `pkt_rx_sync` of the interface: the packets received and not yet taken, and
-- whether the event that `recv` waits for is set.
pub record RxQueue : Type 0 where
  pub pkt_rx_queue : List Packet
  pub pkt_rx_sync : Bool

abbrev pub push_packet : Packet → RxQueue → RxQueue
push_packet skb rx = record { pkt_rx_queue = rx.pkt_rx_queue ++ skb ∷ []; pkt_rx_sync = true }
