-- ===== src/Txq.antt =====
-- `class Txq` of tb/mqnic_core_pcie_us_schedule/mqnic.py, a transmit queue.
mod State
pub mod Transmit
pub mod Complete
pub mod Close
pub mod Open
mod Tests
unfoldable pub use State.*
use schedra_nic.Prelude.{
  ℕ, zero, suc, ◌+◌, ◌-◌, ◌*◌, ◌^◌, ◌/◌, Bool, true, false, not, List, [], ◌∷◌, ◌++◌, Option, none,
  some, ◌==◌, leb, ltb, if◌then◌else◌, bit_and, bit_or, shl, shr, length, set, replicate,
}
use schedra_nic.Device.{
  Result, ok, err, ◌>>=◌, ◌>>◌, guard, already_open, not_open, attribute_error, assertion_error,
  value_error, overflow_error, type_error, not_an_integer, Write, write_dword,
}
use schedra_nic.Regs.{
  mqnic_desc_size, mqnic_queue_ctrl_status_reg, mqnic_queue_base_addr_vf_reg,
  mqnic_queue_cmd_set_enable, mqnic_queue_cmd_set_size, mqnic_queue_cmd_set_cqn,
  mqnic_queue_cmd_set_prod_ptr, mqnic_queue_cmd_set_cons_ptr, mqnic_queue_ptr_mask,
  mqnic_queue_rank_wqe,
}
use schedra_nic.Resource
use schedra_nic.Resource.{Resource, alloc, get_window}
use schedra_nic.Packets.{Pool, alloc_region, Packets, alloc_pkt, free_pkt, pkt_buf_size}
use schedra_nic.Struct.{Bytes, word, poke}
use schedra_nic.Desc.{write_tx_desc}
use schedra_nic.Ring.{Slots, slot_at, free_desc, advance, bit_length}
use schedra_nic.Drain.{is_empty, drain}
use schedra_nic.Eq.{is_none}
use schedra_nic.Cq.{Cq, Handler, process_tx_cq, number, write_cons_ptr, completed_index}

-- Txq.open, for the queue at place `self`, with the CQ at place `cq_place`. Both sizes are rounded
-- down to powers of two; sizes of 0 are outside the model.
unfoldable pub open_txq :
    (self cq_place size desc_block_size : ℕ) → Resource → Pool → Cq → Txq → Result Opened
open_txq self cq_place size desc_block_size txq_res pool cq txq = do
  guard (is_none txq.hw_regs) already_open
  (index, txq_res') ← alloc txq_res
  guard (not (size == 0)) not_an_integer
  guard (not (desc_block_size == 0)) not_an_integer
  let (buf_dma, pool') = alloc_region pool
  let (window, txq_res'') = get_window index txq_res'
  cqn ← number cq.cqn
  ok (record {
    txq = opened cq_place size desc_block_size index window buf_dma txq;
    cq = record cq { src_ring = some self; handler = some process_tx_cq };
    txq_res = txq_res'';
    pool = pool';
    writes = open_writes window buf_dma (bit_length desc_block_size - 1) (bit_length size - 1) cqn;
  })

-- `await self.hw_regs.write_dword(...)`; a closed queue has no registers (AttributeError).
abbrev pub window_of : Option ℕ → Result ℕ
window_of none = err attribute_error
window_of (some window) = ok window

-- Txq.enable: raises, if the queue is not open.
unfoldable pub enable : Txq → Result (Txq × List Write)
enable txq = elim txq.hw_regs [
  | none ↦ err not_open
  | some window ↦ ok (
    record txq { enabled = true },
    write_dword window mqnic_queue_ctrl_status_reg (bit_or mqnic_queue_cmd_set_enable 1) ∷ [],
  )
]

-- Txq.disable: nothing, if the queue is not open.
unfoldable pub disable : Txq → Txq × List Write
disable txq = elim txq.hw_regs [
  | none ↦ (txq, [])
  | some window ↦ (
    record txq { enabled = false },
    write_dword window mqnic_queue_ctrl_status_reg (bit_or mqnic_queue_cmd_set_enable 0) ∷ [],
  )
]

-- `if self.cq: self.cq.src_ring = None; self.cq.handler = None`
abbrev pub release_cq : Option ℕ → Cq → Cq
release_cq none cq = cq
release_cq (some place) cq = record cq { src_ring = none; handler = none }

free_index : Option ℕ → Resource → Resource
free_index none r = r
free_index (some i) r = Resource.free i r

close_at : Option ℕ → Txq → Cq → Resource → Txq × Cq × Resource × List Write
close_at none txq cq txq_res = (txq, cq, txq_res, [])
close_at (some window) txq cq txq_res =
    let (txq', writes) = disable txq in
    (
      record txq' { cq = none; hw_regs = none; index = none },
      release_cq txq.cq cq,
      free_index txq.index txq_res,
      writes,
    )

-- Txq.close: nothing, if the queue is not open. `cq` is the queue's CQ.
unfoldable pub close : Txq → Cq → Resource → Txq × Cq × Resource × List Write
unfolding close_at free_index
close txq cq txq_res = close_at txq.hw_regs txq cq txq_res

-- Txq.empty, Txq.full
unfoldable pub empty : Txq → Bool
empty txq = txq.prod_ptr == txq.cons_ptr

-- The difference of the pointers is compared as integers: a queue whose consumer is ahead is not full.
unfoldable pub full : Txq → Bool
full txq = leb (txq.full_size + txq.cons_ptr) txq.prod_ptr

-- Txq.write_prod_ptr: the producer pointer first, then the doorbell of the scheduler; `write_dword`
-- raises, if the word of the doorbell does not fit 32 bits.
unfoldable pub write_prod_ptr : (rank wqe : ℕ) → Txq → Result (List Write)
write_prod_ptr rank wqe txq = do
  window ← window_of txq.hw_regs
  guard (ltb (bit_or (shl rank 3) wqe) (2 ^ 32)) overflow_error
  ok (
      write_dword window mqnic_queue_ctrl_status_reg
        (bit_or mqnic_queue_cmd_set_prod_ptr (bit_and txq.prod_ptr mqnic_queue_ptr_mask))
      ∷ write_dword window mqnic_queue_rank_wqe (bit_or (shl rank 3) wqe)
      ∷ [])

-- What `tx_transmit` changes: the queue, the packet buffers and the memory that they stand in.
pub record Sent : Type 0 where
  pub txq : Txq
  pub packets : Packets
  pub mem : Bytes
  pub writes : List Write

-- Txq.tx_transmit. The packet goes into a fresh buffer at offset 10; one that does not fit there is
-- refused by the buffer (a slice of a memory region is not resized).
unfoldable pub tx_transmit :
    (pkt_data : List ℕ) (rank csum_cmd : ℕ) → Txq → Packets → Bytes → Result Sent
tx_transmit pkt_data rank csum_cmd txq packets mem = do
  let index = bit_and txq.prod_ptr txq.size_mask
  let (pkt, packets') = alloc_pkt packets
  slot ← slot_at txq.tx_info index
  guard (is_none slot) assertion_error
  guard (leb (length pkt_data + 10) pkt_buf_size) value_error
  buf' ←
      write_tx_desc txq.desc_block_size (index * txq.stride) csum_cmd (pkt + 10) (length pkt_data)
        txq.buf
  let txq' = record txq {
    packets = txq.packets + 1;
    bytes = txq.bytes + length pkt_data;
    tx_info = set txq.tx_info index (some pkt);
    buf = buf';
    prod_ptr = txq.prod_ptr + 1;
  }
  writes ← write_prod_ptr rank 1 txq'
  ok (record {
    txq = txq';
    packets = packets';
    mem = poke mem (pkt + 10) pkt_data;
    writes = writes;
  })

-- The body of the loop over completions: `ring.free_desc(ring_index)`.
unfoldable pub complete : Cq → (size_mask cons_ptr : ℕ) → Slots × Packets → Result (Slots × Packets)
complete cq size_mask cons_ptr (info, packets) =
    free_desc (completed_index cq size_mask cons_ptr) info packets

-- What `process_tx_cq` changes.
pub record Processed : Type 0 where
  pub txq : Txq
  pub cq : Cq
  pub packets : Packets
  pub writes : List Write

-- Txq.process_tx_cq on an interface that is up. A round of the CQ is fuel enough for the first
-- loop, the outstanding descriptors for the second.
unfoldable pub process_tx_cq_up : Cq → Txq → Packets → Result Processed
process_tx_cq_up cq txq packets = do
  (cq_cons_ptr, (tx_info, packets')) ←
      drain cq.size (λ c _. is_empty cq.buf cq.size cq.size_mask cq.stride c)
        (complete cq txq.size_mask) cq.cons_ptr (txq.tx_info, packets)
  let cq' = record cq { cons_ptr = cq_cons_ptr }
  writes ← write_cons_ptr cq'
  ring_cons_ptr ←
      advance (txq.prod_ptr - txq.cons_ptr) tx_info txq.size_mask txq.prod_ptr txq.cons_ptr
  ok (record {
    txq = record txq { tx_info = tx_info; cons_ptr = ring_cons_ptr; clean_event = true };
    cq = cq';
    packets = packets';
    writes = writes;
  })

-- Txq.process_tx_cq: nothing, if the port is down.
unfoldable pub process_tx_cq_of : (port_up : Bool) → Cq → Txq → Packets → Result Processed
unfolding process_tx_cq_up
process_tx_cq_of port_up cq txq packets =
    if port_up
    then process_tx_cq_up cq txq packets
    else ok (record { txq = txq; cq = cq; packets = packets; writes = [] })
