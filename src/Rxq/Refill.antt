-- ===== src/Rxq/Refill.antt =====
-- `Rxq.refill_buffers`: every missing descriptor is prepared with a buffer of its own.
use schedra_nic.Prelude.{
  ◌⊎◌, inl, inr, ℕ, zero, suc, ◌+◌, ◌-◌, ◌*◌, ◌^◌, ◌/◌, ◌%◌, ◌≤◌, ◌<◌, ◌≡◌, refl, ap, ◌∙◌, List, [],
  none, some, set, get_elem?, arith, ltb, lt→ltb, dec_lt, false, bit_and, and_mask, two_pow_pos,
}
use schedra_nic.Device.{ok, Write}
use schedra_nic.Regs.{mqnic_desc_size}
use schedra_nic.Packets.{Packets, alloc_pkt, pkt_buf_size}
use schedra_nic.Packets.Ownership.{Owns, available, alloc_pkt_lem}
use schedra_nic.Struct.{Bytes}
use schedra_nic.Desc.Gather.{write_rx_desc_total}
use schedra_nic.Ring.Occupancy.{occupied, occupied-set-some}
use schedra_nic.Ring.Slots.{IsRing, holds, holds-set-some, put-IsRing, slot_at-some}
use schedra_nic.Rxq.Prepared.{Fills, after_round, no_round-Fills, round-Fills}
use schedra_nic.Desc.{write_rx_desc}
use schedra_nic.Rxq.{Rxq, store_slot, prepare_desc, fill, missing, refill_buffers, write_prod_ptr}

pub record IsOpen (t : Rxq) : Type 0 where
  pub size : t.size ≡ 2 ^ t.log_queue_size
  pub size_mask : t.size_mask ≡ 2 ^ t.log_queue_size - 1
  pub full_size : t.full_size ≡ t.size / 2
  pub block : 0 < t.desc_block_size
  pub stride : t.stride ≡ mqnic_desc_size * t.desc_block_size
  pub ring : IsRing t.log_queue_size t.rx_info t.prod_ptr t.cons_ptr
  pub window : (w : ℕ) × (t.hw_regs ≡ some w)

-- What a refill leaves of the queue that it was given.
pub record Refilled (t : Rxq) (packets : Packets) (n : ℕ) (other : ℕ → ℕ) (r : Rxq × Packets)
    : Type 0 where
  pub still_open : IsOpen r.0
  pub owns : Owns r.1 (λ j. other j + holds r.0.rx_info j)
  pub buffers : available r.1 + occupied r.0.rx_info ≡ available packets + occupied t.rx_info
  pub prod_ptr : r.0.prod_ptr ≡ t.prod_ptr + n
  pub cons_ptr : r.0.cons_ptr ≡ t.cons_ptr
  pub size : r.0.size ≡ t.size
  pub fills : Fills t r.0

module _ {t : Rxq} (o : IsOpen t) (room : t.prod_ptr < t.cons_ptr + 2 ^ t.log_queue_size) where
  index-mod : bit_and t.prod_ptr t.size_mask ≡ t.prod_ptr % 2 ^ t.log_queue_size
  index-mod = ap (bit_and t.prod_ptr) o.size_mask ∙ and_mask t.log_queue_size t.prod_ptr

  vacant_slot : get_elem? t.rx_info (t.prod_ptr % 2 ^ t.log_queue_size) ≡ some none
  vacant_slot = o.ring.vacant t.prod_ptr (omega arith) room

module _ {t : Rxq} {packets : Packets} (other : ℕ → ℕ) (o : IsOpen t)
    (owns : Owns packets (λ j. other j + holds t.rx_info j)) (buffers : 0 < available packets)
    (room : t.prod_ptr < t.cons_ptr + 2 ^ t.log_queue_size) where
  -- The descriptors that a round of the refill writes.
  described :
      (buf : Bytes) × (write_rx_desc t.desc_block_size
          (t.prod_ptr % 2 ^ t.log_queue_size * t.stride)
          (alloc_pkt packets).0
          pkt_buf_size
          t.buf
        ≡ ok buf)
  described =
      write_rx_desc_total t.desc_block_size (t.prod_ptr % 2 ^ t.log_queue_size * t.stride)
        (alloc_pkt packets).0 pkt_buf_size t.buf (alloc_pkt_lem owns buffers).1 (omega arith)

  -- One round of the refill.
  prepared :
      prepare_desc (bit_and t.prod_ptr t.size_mask) t packets
      ≡ ok (
        record t {
          rx_info = set t.rx_info (t.prod_ptr % 2 ^ t.log_queue_size) (some (alloc_pkt packets).0);
          buf = described.0;
        },
        (alloc_pkt packets).1,
      )
  unfolding prepare_desc store_slot
  prepared =
      rw
        (
          index-mod o room,
          slot_at-some t.rx_info (t.prod_ptr % 2 ^ t.log_queue_size) (vacant_slot o room),
          described.1,
        )
        refl

  one_round :
      Refilled t packets 1 other
        (after_round t (alloc_pkt packets).0 described.0, (alloc_pkt packets).1)
  one_round =
      let (_, _, taken, one_fewer) = alloc_pkt_lem owns buffers in
      record {
        still_open = record {
          size = o.size;
          size_mask = o.size_mask;
          full_size = o.full_size;
          block = o.block;
          stride = o.stride;
          ring = put-IsRing o.ring (alloc_pkt packets).0 room;
          window = o.window;
        };
        owns = record {
          balance = λ j. omega (
            arith,
            taken.balance j,
            holds-set-some t.rx_info (t.prod_ptr % 2 ^ t.log_queue_size) (alloc_pkt packets).0 j
                (vacant_slot o room),
          );
          fresh = taken.fresh;
          distinct = taken.distinct;
          addressable = taken.addressable;
          pool_addressable = taken.pool_addressable;
        };
        buffers = omega (
          arith,
          one_fewer,
          occupied-set-some t.rx_info (t.prod_ptr % 2 ^ t.log_queue_size) (alloc_pkt packets).0
              (vacant_slot o room),
        );
        prod_ptr = refl;
        cons_ptr = refl;
        size = refl;
        fills =
            round-Fills t (alloc_pkt packets).0 o.block o.stride (vacant_slot o room) described.1
              (no_round-Fills _) (omega arith) (omega (arith, two_pow_pos t.log_queue_size));
      }

-- The loop prepares as many descriptors as it is asked for, while the ring has room for them.
fill_lem :
    (n : ℕ) {t : Rxq} {packets : Packets} {other : ℕ → ℕ}
    → IsOpen t
    → Owns packets (λ j. other j + holds t.rx_info j)
    → n ≤ available packets
    → t.prod_ptr + n ≤ t.cons_ptr + 2 ^ t.log_queue_size
    → (r : Rxq × Packets) × (fill n t packets ≡ ok r) × Refilled t packets n other r
unfolding fill
fill_lem zero {t} {packets} o owns buffers room = (
  (t, packets),
  refl,
  record {
    still_open = o;
    owns = owns;
    buffers = refl;
    prod_ptr = omega arith;
    cons_ptr = refl;
    size = refl;
    fills = no_round-Fills t;
  },
)
fill_lem (suc n) {t} {packets} {other} o owns buffers room =
    let here : t.prod_ptr < t.cons_ptr + 2 ^ t.log_queue_size = omega arith in
    let some_left : 0 < available packets = omega arith in
    let e = prepared other o owns some_left here in
    let first = one_round other o owns some_left here in
    let (_, _, _, one_fewer) = alloc_pkt_lem owns some_left in
    let (r, f, rest) =
      fill_lem n first.still_open first.owns (omega (arith, one_fewer)) (omega arith) in
    (
      r,
      rw (e, f),
      record {
        still_open = rest.still_open;
        owns = rest.owns;
        buffers = omega (arith, rest.buffers, first.buffers);
        prod_ptr = omega (arith, rest.prod_ptr);
        cons_ptr = rest.cons_ptr;
        size = rest.size;
        fills =
            round-Fills t (alloc_pkt packets).0 o.block o.stride (vacant_slot o here)
              (described other o owns some_left here).1 rest.fills (omega (arith, rest.prod_ptr))
              (omega (arith, rest.prod_ptr, o.ring.order));
      },
    )

-- No more descriptors are missing than the ring has.
pub missing_le : (t : Rxq) → t.cons_ptr ≤ t.prod_ptr → missing t ≤ t.size
unfolding missing
missing_le t order = omega arith

pub missing_lem : (t : Rxq) → missing t ≡ t.size + t.cons_ptr - t.prod_ptr
unfolding missing
missing_lem t = refl

-- What `refill_buffers` leaves: if fewer than 8 descriptors are missing, nothing is changed and
-- nothing is written; from 8 on, the ring is full up to its size, and the new producer pointer is
-- published. Each descriptor from the old producer pointer up to the new one is `Prepared`, with a
-- buffer in its slot that its block names, and the other slots and blocks are as they were.
pub record Topped (t : Rxq) (packets : Packets) (other : ℕ → ℕ) (r : Rxq × Packets × List Write)
    : Type 0 where
  pub still_open : IsOpen r.0
  pub fills : Fills t r.0
  pub owns : Owns r.1 (λ j. other j + holds r.0.rx_info j)
  pub cons_ptr : r.0.cons_ptr ≡ t.cons_ptr
  pub size : r.0.size ≡ t.size
  pub buffers : available r.1 + occupied r.0.rx_info ≡ available packets + occupied t.rx_info
  pub outcome :
      ((t.size + t.cons_ptr < t.prod_ptr + 8) × (r ≡ (t, packets, [])))
      ⊎ ((t.prod_ptr + 8 ≤ t.size + t.cons_ptr)
          × (r.0.prod_ptr ≡ r.0.cons_ptr + r.0.size)
          × (write_prod_ptr r.0 ≡ ok r.2))

-- While as many packet buffers are available as descriptors are missing, an open receive queue is
-- topped up: the refill returns, raises nothing, and leaves what `Topped` says.
pub refill_buffers_lem :
    {t : Rxq} {packets : Packets} {other : ℕ → ℕ}
    → IsOpen t
    → Owns packets (λ j. other j + holds t.rx_info j)
    → missing t ≤ available packets
    → (r : Rxq × Packets × List Write) × (refill_buffers t packets ≡ ok r)
      × Topped t packets other r
unfolding refill_buffers missing
refill_buffers_lem {t} {packets} {other} o owns buffers = elim (dec_lt (missing t) 8) [
  | yes small ↦ (
    (t, packets, []),
    rw (lt→ltb (missing t) 8 small) refl,
    record {
      still_open = o;
      fills = no_round-Fills t;
      owns = owns;
      cons_ptr = refl;
      size = refl;
      buffers = refl;
      outcome = inl (omega (arith, small), refl);
    },
  )
  | no large ↦
      let (r, f, filled) =
        fill_lem (missing t) o owns buffers (omega (arith, o.size, o.ring.room)) in
      let (ws, w) = published filled in
      (
        (r.0, r.1, ws),
        rw (not_small large, f, w) refl,
        record {
          still_open = filled.still_open;
          fills = filled.fills;
          owns = filled.owns;
          cons_ptr = filled.cons_ptr;
          size = filled.size;
          buffers = filled.buffers;
          outcome = inr (
            omega (arith, large),
            omega (arith, filled.prod_ptr, filled.cons_ptr, filled.size, o.size, o.ring.room),
            w,
          );
        },
      )
]
  where
    not_small : ¬ (missing t < 8) → ltb (missing t) 8 ≡ false
    not_small h = ground arith

    published :
        {r : Rxq × Packets} {n : ℕ}
        → Refilled t packets n other r
        → (ws : List Write) × (write_prod_ptr r.0 ≡ ok ws)
    published filled = unfold write_prod_ptr in rw filled.still_open.window.1 (_, refl)
