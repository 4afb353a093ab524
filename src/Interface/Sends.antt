-- ===== src/Interface/Sends.antt =====
-- `Interface.start_xmit` on a well-formed interface.
use schedra_nic.Prelude.{
  ℕ, ◌+◌, ◌*◌, ◌%◌, ◌^◌, ◌≤◌, ◌<◌, ◌≡◌, refl, sym, subst, true, false, Bool-cases, inl, inr, List,
  [], Option, none, some, arith, ltb, length, get_elem?, set, lt→ltb, ltb→lt, total_mono,
  total-others,
}
use schedra_nic.Device.{ok}
use schedra_nic.Struct.{Bytes}
use schedra_nic.Packets.{Packets, pkt_buf_size}
use schedra_nic.Packets.Ownership.{available}
use schedra_nic.Ring.{Slots}
use schedra_nic.Ring.Occupancy.{occupied, occupied_le}
use schedra_nic.Desc.Gather.{gather}
use schedra_nic.Cq.{Cq}
use schedra_nic.Cq.Completion.{Answers}
use schedra_nic.Txq.{Txq, write_prod_ptr}
use schedra_nic.Txq.Transmit
use schedra_nic.Txq.Transmit.{CanSend, Transmitted, tx_transmit_lem}
use schedra_nic.Rxq.{Rxq}
use schedra_nic.Xmit.{csum_command, ring_of, has_space, attempt, start_xmit}
use schedra_nic.Interface.{Interface, After, after, place_of, xmit}
use schedra_nic.Interface.Well.{IsWell}
use schedra_nic.Interface.Handlers.{tx_in_ring, rx_in_ring}
use schedra_nic.Interface.TxServed.{beside, beside-Owns}
use schedra_nic.Interface.TxReplaced.{Answers-filled, tx_replaced-IsWell}

-- The ring that the call takes stands at its place.
ring_there :
    (tx_ring : Option ℕ) (l : List Txq) {t : Txq}
    → ring_of tx_ring l ≡ ok t
    → get_elem? l (place_of tx_ring) ≡ some t
unfolding ring_of
ring_there none l h = ground (arith, h)
ring_there (some i) l h = ground (arith, h)

-- A ring that waits is the same but for its event.
waiting-IsOpen : (t : Txq) → Transmit.IsOpen t → Transmit.IsOpen (record t { clean_event = false })
waiting-IsOpen t o = record {
  size = o.size;
  size_mask = o.size_mask;
  full_size = o.full_size;
  block = o.block;
  stride = o.stride;
  ring = o.ring;
  window = o.window;
}

-- What a call has come to: nothing, while the port is down; a wait, of a ring that is full; or a
-- packet sent, whose bytes the device reads through the block at the old producer pointer, and for
-- which the producer pointer and the doorbell with the packet's rank are written.
pub data Came (i : Interface) (ring : Txq) (place rank : ℕ) (skb : List ℕ) (a : After)
    : Type 0 where
  when_down : i.port_up ≡ false → a.interface ≡ i → a.writes ≡ [] → Came i ring place rank skb a
  when_full :
      i.port_up ≡ true
      → ring.full_size + ring.cons_ptr ≤ ring.prod_ptr
      → a.interface ≡ record i { txqs = set i.txqs place (record ring { clean_event = false }) }
      → a.writes ≡ []
      → Came i ring place rank skb a
  when_sent :
      (t : Txq)
      → i.port_up ≡ true
      → ring.prod_ptr < ring.full_size + ring.cons_ptr
      → a.interface ≡ record i { txqs = set i.txqs place t }
      → t.prod_ptr ≡ ring.prod_ptr + 1
      → gather a.mem t.buf
          (ring.prod_ptr % 2 ^ ring.log_queue_size * ring.stride)
          0
          ring.desc_block_size
        ≡ skb
      → write_prod_ptr rank 1 t ≡ ok a.writes
      → Came i ring place rank skb a

module _ {i : Interface} {packets : Packets} {other : ℕ → ℕ} {slack : ℕ}
    (well : IsWell i packets other slack) (r : ℕ) {t : Txq}
    (ring : get_elem? i.txqs r ≡ some t) where
  -- While a transmit queue has space, a packet buffer is available.
  buffer_left : t.prod_ptr < t.full_size + t.cons_ptr → 0 < available packets
  buffer_left space =
      let o : Transmit.IsOpen t = well.tx_open r t ring in
      omega (
        arith,
        well.enough,
        o.size,
        o.full_size,
        occupied_le o.ring,
        total-others (λ (t : Txq). occupied t.tx_info) (λ (t : Txq). t.size) i.txqs r
            (tx_in_ring well) ring,
        total_mono (λ (t : Rxq). occupied t.rx_info) (λ (t : Rxq). t.size) i.rxqs (rx_in_ring well),
      )

answered :
    (q : Cq) (t : Txq) (size_mask : ℕ) {info : Slots}
    → t.size_mask ≡ size_mask
    → t.tx_info ≡ info
    → Answers q t.log_queue_size size_mask t.prod_ptr t.cons_ptr q.cons_ptr info
    → Answers q t.log_queue_size t.size_mask t.prod_ptr t.cons_ptr q.cons_ptr t.tx_info
answered q t size_mask m f a =
    subst (λ z. Answers q t.log_queue_size z t.prod_ptr t.cons_ptr q.cons_ptr t.tx_info) (sym m)
      (subst (λ z. Answers q t.log_queue_size size_mask t.prod_ptr t.cons_ptr q.cons_ptr z) (sym f)
        a)

-- A packet below the MTU, with a rank below 2 ^ 29, of which the buffers have room, whose ring is there: start_xmit raises
-- nothing, keeps the interface well formed with its port and its received packets as they were, and comes to
-- what Came says.
pub xmit_lem :
    {i : Interface} {packets : Packets} {other : ℕ → ℕ} {slack : ℕ} (max_tx_mtu rank : ℕ)
    (tx_ring csum_start csum_offset : Option ℕ) (skb : List ℕ) (mem : Bytes) {ring : Txq}
    → IsWell i packets other slack
    → rank < 2 ^ 29
    → length skb < max_tx_mtu
    → length skb + 10 ≤ pkt_buf_size
    → csum_command csum_start csum_offset < 2 ^ 16
    → ring_of tx_ring i.txqs ≡ ok ring
    → (a : After) × (xmit max_tx_mtu rank tx_ring csum_start csum_offset skb i packets mem ≡ ok a)
      × IsWell a.interface a.packets other slack
      × (a.interface.port_up ≡ i.port_up)
      × (a.interface.rx ≡ i.rx)
      × Came i ring (place_of tx_ring) rank skb a
unfolding xmit after start_xmit attempt has_space
xmit_lem {i} {packets} {other} max_tx_mtu rank tx_ring csum_start csum_offset skb mem {ring} well
      low_rank small fits csum at =
    let there = ring_there tx_ring i.txqs at in
    let o = well.tx_open (place_of tx_ring) ring there in
    let owned = beside-Owns well (place_of tx_ring) there in
    let low = lt→ltb (length skb) max_tx_mtu small in
    elim (Bool-cases i.port_up) [
      | inr down ↦ (
        record { interface = i; packets = packets; mem = mem; writes = [] },
        ground (arith, down),
        well,
        refl,
        refl,
        when_down down refl refl,
      )
      | inl up ↦ elim (Bool-cases (ltb ring.prod_ptr (ring.full_size + ring.cons_ptr))) [
        | inr full ↦ (
          record {
            interface = record i {
              txqs = set i.txqs (place_of tx_ring) (record ring { clean_event = false });
            };
            packets = packets;
            mem = mem;
            writes = [];
          },
          ground (arith, up, low, at, full),
          tx_replaced-IsWell well (place_of tx_ring) there (record ring { clean_event = false })
              (λ q a. a) packets (waiting-IsOpen ring o) owned refl refl,
          refl,
          refl,
          when_full up (ground (arith, full)) refl refl,
        )
        | inl space ↦
            let room = ltb→lt ring.prod_ptr (ring.full_size + ring.cons_ptr) space in
            let can : CanSend skb (csum_command csum_start csum_offset) ring = record {
              room = room;
              fits = fits;
              csum = csum;
            } in
            let (s, e, t) =
              tx_transmit_lem (beside well (place_of tx_ring) there) o can owned
                (buffer_left well (place_of tx_ring) there room) rank mem low_rank in
            (
              record {
                interface = record i { txqs = set i.txqs (place_of tx_ring) s.txq };
                packets = s.packets;
                mem = s.mem;
                writes = s.writes;
              },
              ground (arith, up, low, at, space, e),
              tx_replaced-IsWell well (place_of tx_ring) there s.txq
                  (λ q a.
                    answered q s.txq ring.size_mask t.size_mask t.filled
                      (Answers-filled q ring.tx_info t.slot t.pkt t.was_vacant a))
                  s.packets t.still_open t.owns t.still_buffers t.size,
              refl,
              refl,
              when_sent s.txq up room refl t.prod_ptr t.dma t.writes,
            )
      ]
    ]
