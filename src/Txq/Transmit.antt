-- ===== src/Txq/Transmit.antt =====
-- `Txq.open` and `Txq.tx_transmit`: what an open transmit queue is, and that sending keeps it.
use schedra_nic.Prelude.{
  ℕ, ◌+◌, ◌-◌, ◌*◌, ◌^◌, ◌/◌, ◌%◌, ◌≤◌, ◌<◌, ◌≡◌, refl, ap, ◌∙◌, List, none, some, length, set,
  get_elem?, replicate, arith, leb, true, bit_and, and_mask, two_pow_pos, length-replicate,
  get_elem?-replicate, ◌==◌,
}
use native.Mathlib.Nat.{mod-lt}
use schedra_nic.Device.{ok, Write}
use schedra_nic.Regs.{mqnic_desc_size}
use schedra_nic.Packets.{Packets, alloc_pkt, pkt_buf_size}
use schedra_nic.Packets.Ownership.{Owns, available, alloc_pkt_lem, one_if}
use schedra_nic.Struct.{Bytes, poke}
use schedra_nic.Struct.Bytes.{peek-poke_self}
use schedra_nic.Desc.{write_tx_desc}
use schedra_nic.Desc.Gather.{gather, write_tx_desc_lem, write_tx_desc_total}
use schedra_nic.Ring.{slot_at}
use schedra_nic.Ring.Occupancy.{occupied, occupied-set-some}
use schedra_nic.Ring.Slots.{IsRing, holds, holds-set-some, put-IsRing, slot_at-some}
use schedra_nic.Txq.{Txq, write_prod_ptr, Sent, tx_transmit}
use schedra_nic.Xmit.Command.{write_prod_ptr_lem}

pub record IsOpen (t : Txq) : Type 0 where
  pub size : t.size ≡ 2 ^ t.log_queue_size
  pub size_mask : t.size_mask ≡ 2 ^ t.log_queue_size - 1
  pub full_size : t.full_size ≡ t.size / 2
  pub block : 0 < t.desc_block_size
  pub stride : t.stride ≡ mqnic_desc_size * t.desc_block_size
  pub ring : IsRing t.log_queue_size t.tx_info t.prod_ptr t.cons_ptr
  pub window : (w : ℕ) × (t.hw_regs ≡ some w)

-- A ring of empty slots, both pointers at its start.
pub empty-IsRing : (k : ℕ) → IsRing k (replicate (2 ^ k) none) 0 0
empty-IsRing k = record {
  slots = length-replicate (2 ^ k) none;
  order = omega arith;
  room = omega arith;
  vacant = λ p _ _. get_elem?-replicate (2 ^ k) (p % 2 ^ k) none (mod-lt p (two_pow_pos k));
}

-- A packet can be sent: the queue has room as `Interface.start_xmit` tests it, the packet fits a
-- buffer, and its checksum command 16 bits.
pub record CanSend (pkt_data : List ℕ) (csum_cmd : ℕ) (t : Txq) : Type 0 where
  pub room : t.prod_ptr < t.full_size + t.cons_ptr
  pub fits : length pkt_data + 10 ≤ pkt_buf_size
  pub csum : csum_cmd < 2 ^ 16

module _ {pkt_data : List ℕ} {csum_cmd : ℕ} {t : Txq} {packets : Packets} (other : ℕ → ℕ)
    (o : IsOpen t) (c : CanSend pkt_data csum_cmd t)
    (owned : Owns packets (λ j. other j + holds t.tx_info j))
    (buffers : 0 < available packets) where
  index-mod : bit_and t.prod_ptr t.size_mask ≡ t.prod_ptr % 2 ^ t.log_queue_size
  index-mod = ap (bit_and t.prod_ptr) o.size_mask ∙ and_mask t.log_queue_size t.prod_ptr

  below_ring : t.prod_ptr < t.cons_ptr + 2 ^ t.log_queue_size
  below_ring = omega (arith, c.room, o.full_size, o.size)

  vacant_slot : get_elem? t.tx_info (t.prod_ptr % 2 ^ t.log_queue_size) ≡ some none
  vacant_slot = o.ring.vacant t.prod_ptr (omega arith) below_ring

  free_slot : slot_at t.tx_info (bit_and t.prod_ptr t.size_mask) ≡ ok none
  free_slot =
      ap (slot_at t.tx_info) index-mod
      ∙ slot_at-some t.tx_info (t.prod_ptr % 2 ^ t.log_queue_size) vacant_slot

  -- The descriptors that are written, and the queue after them.
  described :
      (buf' : Bytes) × (write_tx_desc t.desc_block_size
          (bit_and t.prod_ptr t.size_mask * t.stride)
          csum_cmd
          ((alloc_pkt packets).0 + 10)
          (length pkt_data)
          t.buf
        ≡ ok buf')
  described =
      write_tx_desc_total t.desc_block_size (bit_and t.prod_ptr t.size_mask * t.stride) csum_cmd
        ((alloc_pkt packets).0 + 10) (length pkt_data) t.buf c.csum
        (omega (arith, c.fits, (alloc_pkt_lem owned buffers).1)) (omega (arith, c.fits))

  abbrev sent_txq : Txq
  sent_txq = record t {
    packets = t.packets + 1;
    bytes = t.bytes + length pkt_data;
    tx_info = set t.tx_info (bit_and t.prod_ptr t.size_mask) (some (alloc_pkt packets).0);
    buf = described.0;
    prod_ptr = t.prod_ptr + 1;
  }

  published :
      (rank : ℕ) → rank < 2 ^ 29 → (ws : List Write) × (write_prod_ptr rank 1 sent_txq ≡ ok ws)
  published rank small =
      (_, write_prod_ptr_lem rank 1 sent_txq o.window.0 o.window.1 small (omega arith))

  abbrev sent : (rank : ℕ) → rank < 2 ^ 29 → Bytes → Sent
  sent rank small mem = record {
    txq = sent_txq;
    packets = (alloc_pkt packets).1;
    mem = poke mem ((alloc_pkt packets).0 + 10) pkt_data;
    writes = (published rank small).0;
  }

  transmits :
      (rank : ℕ) (small : rank < 2 ^ 29) (mem : Bytes)
      → tx_transmit pkt_data rank csum_cmd t packets mem ≡ ok (sent rank small mem)
  unfolding tx_transmit
  transmits rank small mem = rw (free_slot, fits_test, described.1, (published rank small).1) refl
    where
      fits_test : leb (length pkt_data + 10) pkt_buf_size ≡ true
      fits_test = ground (arith, c.fits)

  sent-IsOpen : IsOpen sent_txq
  sent-IsOpen = record {
    size = o.size;
    size_mask = o.size_mask;
    full_size = o.full_size;
    block = o.block;
    stride = o.stride;
    ring = rw index-mod (put-IsRing o.ring (alloc_pkt packets).0 below_ring);
    window = o.window;
  }

  -- The device, reading memory through the descriptors just written, gets the packet.
  reads_packet :
      (mem : Bytes)
      → gather
          (poke mem ((alloc_pkt packets).0 + 10) pkt_data)
          described.0
          (bit_and t.prod_ptr t.size_mask * t.stride)
          0
          t.desc_block_size
        ≡ pkt_data
  reads_packet mem =
      (write_tx_desc_lem (poke mem ((alloc_pkt packets).0 + 10) pkt_data) t.desc_block_size
        (bit_and t.prod_ptr t.size_mask * t.stride) csum_cmd ((alloc_pkt packets).0 + 10)
        (length pkt_data) t.buf o.block described.1).0
      ∙ peek-poke_self mem ((alloc_pkt packets).0 + 10) pkt_data

  sent-Owns : Owns (alloc_pkt packets).1 (λ j. other j + holds sent_txq.tx_info j)
  sent-Owns =
      let (_, _, taken, _) = alloc_pkt_lem owned buffers in
      record {
        balance = λ j. omega (arith, taken.balance j, filled j);
        fresh = taken.fresh;
        distinct = taken.distinct;
        addressable = taken.addressable;
        pool_addressable = taken.pool_addressable;
      }
    where
      filled :
          (j : ℕ)
          → holds sent_txq.tx_info j ≡ holds t.tx_info j + one_if ((alloc_pkt packets).0 == j)
      filled j =
          holds-set-some t.tx_info (bit_and t.prod_ptr t.size_mask) (alloc_pkt packets).0 j
            (ap (get_elem? t.tx_info) index-mod ∙ vacant_slot)

  sent-buffers :
      available (alloc_pkt packets).1 + occupied sent_txq.tx_info
      ≡ available packets + occupied t.tx_info
  sent-buffers =
      let (_, _, _, one_fewer) = alloc_pkt_lem owned buffers in
      omega (
        arith,
        one_fewer,
        occupied-set-some t.tx_info (bit_and t.prod_ptr t.size_mask) (alloc_pkt packets).0
            (ap (get_elem? t.tx_info) index-mod ∙ vacant_slot),
      )

  -- What a transmit has done: the queue is still well formed and one descriptor ahead, each packet
  -- buffer is still in one place, the device reads exactly the packet's bytes through the block at
  -- the old producer pointer's index, the counters have counted it, and the writes are those of
  -- `write_prod_ptr` at the new producer pointer.
  pub record Transmitted (rank : ℕ) (s : Sent) : Type 0 where
    pub still_open : IsOpen s.txq
    pub owns : Owns s.packets (λ j. other j + holds s.txq.tx_info j)
    pub still_buffers :
        available s.packets + occupied s.txq.tx_info ≡ available packets + occupied t.tx_info
    pub size : s.txq.size ≡ t.size
    pub size_mask : s.txq.size_mask ≡ t.size_mask
    pub slot : ℕ
    pub pkt : ℕ
    pub was_vacant : get_elem? t.tx_info slot ≡ some none
    pub filled : s.txq.tx_info ≡ set t.tx_info slot (some pkt)
    pub prod_ptr : s.txq.prod_ptr ≡ t.prod_ptr + 1
    pub cons_ptr : s.txq.cons_ptr ≡ t.cons_ptr
    pub packets_sent : s.txq.packets ≡ t.packets + 1
    pub bytes_sent : s.txq.bytes ≡ t.bytes + length pkt_data
    pub dma :
        gather s.mem s.txq.buf (t.prod_ptr % 2 ^ t.log_queue_size * t.stride) 0 t.desc_block_size
        ≡ pkt_data
    pub writes : write_prod_ptr rank 1 s.txq ≡ ok s.writes

  -- An open queue with room sends any packet that fits, with a rank below 2 ^ 29, while a packet
  -- buffer is available: no
  -- assertion fails and no write is refused, and `Transmitted` says what it did.
  pub tx_transmit_lem :
      (rank : ℕ) (mem : Bytes)
      → rank < 2 ^ 29
      → (s : Sent) × (tx_transmit pkt_data rank csum_cmd t packets mem ≡ ok s) × Transmitted rank s
  tx_transmit_lem rank mem small = (
    sent rank small mem,
    transmits rank small mem,
    record {
      still_open = sent-IsOpen;
      owns = sent-Owns;
      still_buffers = sent-buffers;
      size = refl;
      size_mask = refl;
      slot = bit_and t.prod_ptr t.size_mask;
      pkt = (alloc_pkt packets).0;
      was_vacant = ap (get_elem? t.tx_info) index-mod ∙ vacant_slot;
      filled = refl;
      prod_ptr = refl;
      cons_ptr = refl;
      packets_sent = refl;
      bytes_sent = refl;
      dma = rw (← index-mod) (reads_packet mem);
      writes = (published rank small).1;
    },
  )
