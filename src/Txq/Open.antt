-- ===== src/Txq/Open.antt =====
-- `Txq.open`: what opening a queue leaves, of the queue, its CQ and the free indices.
use schedra_nic.Prelude.{
  ℕ, ◌+◌, ◌-◌, ◌*◌, ◌<◌, ◌≡◌, refl, none, some, arith, not, ◌==◌, true, two_pow_pos, ap, ◌∙◌, ◌^◌,
  length,
}
use schedra_nic.Device.{ok}
use schedra_nic.Resource.{Resource, alloc, get_window}
use schedra_nic.Resource.Laws.{IsValid, alloc_lem, alloc-place, get_window_lem}
use schedra_nic.Packets.{Pool, alloc_region}
use schedra_nic.Ring.{bit_length}
use schedra_nic.Resource.Stock.{window_beside}
use schedra_nic.Ring.Slots.{holds, holds-replicate}
use schedra_nic.Cq.{Cq, process_tx_cq}
use schedra_nic.Txq.{Txq, Opened, opened, open_writes, open_txq}
use schedra_nic.Txq.Transmit.{IsOpen, empty-IsRing}

-- What `open` leaves, given the index that it has allocated.
pub record Opens (self place size : ℕ) (pool : Pool) (cq : Cq) (txq_res : Resource) (i : ℕ)
    (o : Opened) : Type 0 where
  pub open_queue : IsOpen o.txq
  pub index : o.txq.index ≡ some i
  pub window : o.txq.hw_regs ≡ some (txq_res.parent + i * txq_res.stride)
  pub empty_ring : o.txq.prod_ptr ≡ o.txq.cons_ptr
  pub cq_place : o.txq.cq ≡ some place
  pub source : o.cq ≡ record cq { src_ring = some self; handler = some process_tx_cq }
  pub resource : IsValid o.txq_res
  pub one_index : length txq_res.free_list ≡ length o.txq_res.free_list + 1
  pub rounded : o.txq.size ≡ 2 ^ (bit_length size - 1)
  pub no_buffer : (j : ℕ) → holds o.txq.tx_info j ≡ 0
  pub one_region : o.pool ≡ (alloc_region pool).1

positive : {n : ℕ} → 0 < n → not (n == 0) ≡ true
positive h = ground (arith, h)

opened-IsOpen :
    (place size desc_block_size index window buf_dma : ℕ) (txq : Txq)
    → IsOpen (opened place size desc_block_size index window buf_dma txq)
opened-IsOpen place size desc_block_size index window buf_dma txq = record {
  size = refl;
  size_mask = refl;
  full_size = refl;
  block = two_pow_pos (bit_length desc_block_size - 1);
  stride = refl;
  ring = empty-IsRing (bit_length size - 1);
  window = (window, refl);
}

-- A closed queue opens, while an index is free, its sizes are not 0 and its CQ is open: no error is
-- raised, the queue is well formed and empty, on the index that `alloc` returned and on that index's window,
-- it and its CQ point at each other, and it takes one index, one region and no packet buffer.
pub open_txq_lem :
    (self place size desc_block_size : ℕ) {txq_res res' : Resource} (pool : Pool) {cq : Cq}
    (txq : Txq) (i cqn : ℕ)
    → txq.hw_regs ≡ none
    → IsValid txq_res
    → alloc txq_res ≡ ok (i, res')
    → 0 < size
    → 0 < desc_block_size
    → cq.cqn ≡ some cqn
    → (o : Opened) × (open_txq self place size desc_block_size txq_res pool cq txq ≡ ok o)
      × Opens self place size pool cq txq_res i o
unfolding open_txq
open_txq_lem self place size desc_block_size {txq_res} {res'} pool {cq} txq i cqn closed v a s d n =
    let (at, valid, _, _) = get_window_lem (alloc_lem v a).0 i in
    (
      record {
        txq = opened place size desc_block_size i (get_window i res').0 (alloc_region pool).0 txq;
        cq = record cq { src_ring = some self; handler = some process_tx_cq };
        txq_res = (get_window i res').1;
        pool = (alloc_region pool).1;
        writes =
            open_writes (get_window i res').0 (alloc_region pool).0 (bit_length desc_block_size - 1)
              (bit_length size - 1) cqn;
      },
      rw (closed, a, positive s, positive d, n) refl,
      record {
        open_queue =
            opened-IsOpen place size desc_block_size i (get_window i res').0 (alloc_region pool).0
              txq;
        index = refl;
        window = ap some (at ∙ same_windows a);
        empty_ring = refl;
        cq_place = refl;
        source = refl;
        resource = valid;
        one_index = window_beside v a;
        rounded = refl;
        no_buffer = λ j. holds-replicate (2 ^ (bit_length size - 1)) j;
        one_region = refl;
      },
    )
  where
    same_windows :
        alloc txq_res ≡ ok (i, res')
        → res'.parent + i * res'.stride ≡ txq_res.parent + i * txq_res.stride
    same_windows e = let (p, q) = alloc-place txq_res e in rw (p, q) refl
