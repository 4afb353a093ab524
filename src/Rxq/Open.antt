-- ===== src/Rxq/Open.antt =====
-- `Rxq.open`: what opening a queue leaves, of the queue, its CQ, its packet buffers and the free
-- indices.
use schedra_nic.Prelude.{
  ℕ, ◌+◌, ◌-◌, ◌^◌, ◌≤◌, ◌<◌, ◌≡◌, refl, ◌++◌, List, none, some, arith, ◌⊎◌, inl, inr, not, ◌==◌,
  true, two_pow_pos, ap, replicate, length,
}
use schedra_nic.Device.{ok, Write}
use schedra_nic.Resource.{Resource, alloc, get_window}
use schedra_nic.Resource.Laws.{IsValid, alloc_lem, get_window_lem}
use schedra_nic.Packets.{alloc_region, Packets}
use schedra_nic.Packets.Ownership.{Owns, available, region-Owns}
use schedra_nic.Ring.{bit_length}
use schedra_nic.Ring.Slots.{holds, holds-replicate}
use schedra_nic.Resource.Stock.{window_beside}
use schedra_nic.Ring.Occupancy.{occupied, occupied-replicate}
use schedra_nic.Cq.{Cq, process_rx_cq}
use schedra_nic.Txq.Transmit.{empty-IsRing}
use schedra_nic.Rxq.{Rxq, Opened, opened, open_writes, open_rxq, refill_buffers}
use schedra_nic.Rxq.Prepared.{Prepared}
use schedra_nic.Rxq.Refill.{IsOpen, missing_le, refill_buffers_lem}

-- What `open` leaves, given the index that it has allocated: a ring of fewer than 8 descriptors
-- empty, any other full; every descriptor up to the producer pointer has its buffer in its slot, and
-- its block names that buffer.
pub record Opens (self place size : ℕ) (cq : Cq) (rxq_res : Resource) (packets : Packets) (i : ℕ)
    (other : ℕ → ℕ) (o : Opened) : Type 0 where
  pub open_queue : IsOpen o.rxq
  pub owns : Owns o.packets (λ j. other j + holds o.rxq.rx_info j)
  pub start : o.rxq.cons_ptr ≡ 0
  pub filling :
      ((o.rxq.size < 8) × (o.rxq.prod_ptr ≡ 0)) ⊎ ((8 ≤ o.rxq.size) × (o.rxq.prod_ptr ≡ o.rxq.size))
  pub prepared : (p : ℕ) → p < o.rxq.prod_ptr → Prepared o.rxq p
  pub source : o.cq ≡ record cq { src_ring = some self; handler = some process_rx_cq }
  pub resource : IsValid o.rxq_res
  pub one_index : length rxq_res.free_list ≡ length o.rxq_res.free_list + 1
  pub rounded : o.rxq.size ≡ 2 ^ (bit_length size - 1)
  pub buffers : available packets ≤ available o.packets + occupied o.rxq.rx_info + 1

positive : {n : ℕ} → 0 < n → not (n == 0) ≡ true
positive h = ground (arith, h)

opened-IsOpen :
    (place size desc_block_size index window buf_dma : ℕ) (rxq : Rxq)
    → IsOpen (opened place size desc_block_size index window buf_dma rxq)
opened-IsOpen place size desc_block_size index window buf_dma rxq = record {
  size = refl;
  size_mask = refl;
  full_size = refl;
  block = two_pow_pos (bit_length desc_block_size - 1);
  stride = refl;
  ring = empty-IsRing (bit_length size - 1);
  window = (window, refl);
}

-- Before it is filled, the ring holds no buffer.
held_by_none :
    {packets : Packets} {other : ℕ → ℕ} (n : ℕ)
    → Owns packets other
    → Owns packets (λ j. other j + holds (replicate n none) j)
held_by_none n o = record {
  balance = λ j. omega (arith, o.balance j, holds-replicate n j);
  fresh = o.fresh;
  distinct = o.distinct;
  addressable = o.addressable;
  pool_addressable = o.pool_addressable;
}

-- The call, once the refill has returned.
opens_to :
    (self place size desc_block_size : ℕ) (rxq_res : Resource) {res' : Resource} (packets : Packets)
    (cq : Cq) (rxq : Rxq) (i cqn : ℕ) {r : Rxq × Packets × List Write}
    → rxq.hw_regs ≡ none
    → alloc rxq_res ≡ ok (i, res')
    → 0 < size
    → 0 < desc_block_size
    → cq.cqn ≡ some cqn
    → refill_buffers
        (opened place size desc_block_size i
          (get_window i res').0
          (alloc_region packets.pool).0
          rxq)
        (record packets { pool = (alloc_region packets.pool).1 })
      ≡ ok r
    → open_rxq self place size desc_block_size rxq_res packets cq rxq
      ≡ ok (record {
        rxq = r.0;
        cq = record cq { src_ring = some self; handler = some process_rx_cq };
        rxq_res = (get_window i res').1;
        packets = r.1;
        writes =
            open_writes
              (get_window i res').0
              (alloc_region packets.pool).0
              (bit_length desc_block_size - 1)
              (bit_length size - 1)
              cqn
            ++ r.2;
      })
unfolding open_rxq
opens_to self place size desc_block_size rxq_res packets cq rxq i cqn closed a s d n f =
    rw (closed, a, positive s, positive d, n, f) refl

-- A closed queue opens, while an index is free, its sizes are not 0, its CQ is open and more packet
-- buffers are available than the ring has descriptors: no error is raised, and the queue is well
-- formed and, from 8 descriptors on, filled to its size, each descriptor with a buffer that it names to
-- the device; it takes one index, and one region besides
-- the buffers in its ring.
pub open_rxq_lem :
    (self place size desc_block_size : ℕ) {rxq_res res' : Resource} {packets : Packets} {cq : Cq}
    (rxq : Rxq) (i cqn : ℕ) {other : ℕ → ℕ}
    → rxq.hw_regs ≡ none
    → IsValid rxq_res
    → alloc rxq_res ≡ ok (i, res')
    → 0 < size
    → 0 < desc_block_size
    → cq.cqn ≡ some cqn
    → Owns packets other
    → 2 ^ (bit_length size - 1) < available packets
    → (o : Opened) × (open_rxq self place size desc_block_size rxq_res packets cq rxq ≡ ok o)
      × Opens self place size cq rxq_res packets i other o
open_rxq_lem self place size desc_block_size {rxq_res} {res'} {packets} {cq} rxq i cqn {other}
      closed v a s d n owns buffers =
    let (at, valid, _, _) = get_window_lem (alloc_lem v a).0 i in
    let (owns', left) = region-Owns owns in
    let empty : Rxq =
      opened place size desc_block_size i (get_window i res').0 (alloc_region packets.pool).0 rxq in
    let (r, f, topped) =
      refill_buffers_lem {t = empty}
        {packets = record packets { pool = (alloc_region packets.pool).1 }} {other = other}
        (opened-IsOpen place size desc_block_size i (get_window i res').0
          (alloc_region packets.pool).0 rxq)
        (held_by_none (2 ^ (bit_length size - 1)) owns')
        (omega (arith, left, missing_le empty (omega arith))) in
    (
      _,
      opens_to self place size desc_block_size rxq_res packets cq rxq i cqn closed a s d n f,
      record {
        open_queue = topped.still_open;
        owns = topped.owns;
        start = topped.cons_ptr;
        filling = elim topped.outcome [
          | inl (few, same) ↦ inl (
            omega (arith, topped.size, few),
            ap (λ (x : Rxq × Packets × List Write). x.0.prod_ptr) same,
          )
          | inr (many, full, _) ↦
              inr (omega (arith, topped.size, many), omega (arith, full, topped.cons_ptr))
        ];
        prepared = λ p u. topped.fills.prepared p (omega arith) u;
        source = refl;
        resource = valid;
        one_index = window_beside v a;
        rounded = topped.size;
        buffers =
            omega (arith, left, topped.buffers, occupied-replicate (2 ^ (bit_length size - 1)));
      },
    )
