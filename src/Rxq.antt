-- ===== src/Rxq.antt =====
-- `class Rxq` and `class Packet` of tb/mqnic_core_pcie_us_schedule/mqnic.py: a receive queue, and
-- the packets that it delivers.
mod State
mod Delivery
pub mod Prepared
pub mod Refill
pub mod Receive
pub mod Open
pub mod Close
pub mod Views
mod Tests
unfoldable pub use Delivery.*
unfoldable pub use State.*
use schedra_nic.Prelude.{
  ℕ, zero, suc, ◌+◌, ◌-◌, ◌*◌, ◌^◌, ◌/◌, Bool, true, false, not, List, [], ◌∷◌, ◌++◌, Option, none,
  some, ◌==◌, leb, if◌then◌else◌, bit_and, bit_or, shl, shr, length, set, replicate, ltb, min,
}
use schedra_nic.Device.{
  Result, ok, err, ◌>>=◌, ◌>>◌, guard, already_open, not_open, attribute_error, assertion_error,
  value_error, type_error, not_an_integer, Write, write_dword,
}
use schedra_nic.Regs.{
  mqnic_desc_size, mqnic_queue_ctrl_status_reg, mqnic_queue_base_addr_vf_reg,
  mqnic_queue_cmd_set_enable, mqnic_queue_cmd_set_size, mqnic_queue_cmd_set_cqn,
  mqnic_queue_cmd_set_prod_ptr, mqnic_queue_cmd_set_cons_ptr, mqnic_queue_ptr_mask,
}
use schedra_nic.Resource
use schedra_nic.Resource.{Resource, alloc, get_window}
use schedra_nic.Packets.{Pool, alloc_region, Packets, alloc_pkt, free_pkt, pkt_buf_size}
use schedra_nic.Struct.{Bytes, word, peek}
use schedra_nic.Desc.{write_rx_desc}
use schedra_nic.Ring.{Slots, slot_at, free_desc, advance, bit_length}
use schedra_nic.Drain.{is_empty, drain}
use schedra_nic.Eq.{is_none}
use schedra_nic.Cq.{Cq, Handler, process_rx_cq, number, write_cons_ptr, completed_index}

-- Rxq.write_prod_ptr
unfoldable pub write_prod_ptr : Rxq → Result (List Write)
write_prod_ptr rxq = do
  window ← window_of rxq.hw_regs
  ok (
      write_dword window mqnic_queue_ctrl_status_reg
        (bit_or mqnic_queue_cmd_set_prod_ptr (bit_and rxq.prod_ptr mqnic_queue_ptr_mask))
      ∷ [])

-- `info[index] = pkt`, IndexError out of range
unfoldable pub store_slot : Slots → ℕ → ℕ → Result Slots
store_slot info index pkt = do old ← slot_at info index; ok (set info index (some pkt))

-- Rxq.prepare_desc: a fresh buffer in the slot, and descriptors over the whole of it.
unfoldable pub prepare_desc : ℕ → Rxq → Packets → Result (Rxq × Packets)
prepare_desc index rxq packets = do
  let (pkt, packets') = alloc_pkt packets
  rx_info ← store_slot rxq.rx_info index pkt
  buf ← write_rx_desc rxq.desc_block_size (index * rxq.stride) pkt pkt_buf_size rxq.buf
  ok (record rxq { rx_info = rx_info; buf = buf }, packets')

-- `for k in range(missing)` of `refill_buffers`
unfoldable pub fill : ℕ → Rxq → Packets → Result (Rxq × Packets)
fill zero rxq packets = ok (rxq, packets)
fill (suc rounds) rxq packets = do
  (rxq', packets') ← prepare_desc (bit_and rxq.prod_ptr rxq.size_mask) rxq packets
  fill rounds (record rxq' { prod_ptr = rxq'.prod_ptr + 1 }) packets'

-- `self.size - (self.prod_ptr - self.cons_ptr)`; less than 0 counts as less than 8.
unfoldable pub missing : Rxq → ℕ
missing rxq = rxq.size + rxq.cons_ptr - rxq.prod_ptr

refill : Rxq → Packets → Result (Rxq × Packets × List Write)
refill rxq packets = do
  (rxq', packets') ← fill (missing rxq) rxq packets
  writes ← write_prod_ptr rxq'
  ok (rxq', packets', writes)

-- Rxq.refill_buffers
unfoldable pub refill_buffers : Rxq → Packets → Result (Rxq × Packets × List Write)
unfolding refill
refill_buffers rxq packets =
    if ltb (missing rxq) 8 then ok (rxq, packets, []) else refill rxq packets

-- The queue of `Rxq.open` before it is filled, once it has its index, its window and its memory.
abbrev pub opened : (cq_place size desc_block_size index window buf_dma : ℕ) → Rxq → Rxq
opened cq_place size desc_block_size index window buf_dma rxq =
    let log_queue_size = bit_length size - 1 in
    let log_desc_block_size = bit_length desc_block_size - 1 in
    let stride = mqnic_desc_size * 2 ^ log_desc_block_size in
    record rxq {
      log_queue_size = log_queue_size;
      log_desc_block_size = log_desc_block_size;
      desc_block_size = 2 ^ log_desc_block_size;
      size = 2 ^ log_queue_size;
      size_mask = 2 ^ log_queue_size - 1;
      full_size = shr (2 ^ log_queue_size) 1;
      stride = stride;
      index = some index;
      buf_size = 2 ^ log_queue_size * stride;
      buf_dma = buf_dma;
      cq = some cq_place;
      rx_info = replicate (2 ^ log_queue_size) none;
      prod_ptr = 0;
      cons_ptr = 0;
      hw_regs = some window;
    }

-- Rxq.open, for the queue at place `self`, with the CQ at place `cq_place`. Both sizes are rounded
-- down to powers of two; sizes of 0 are outside the model. The ring is filled at once.
unfoldable pub open_rxq :
    (self cq_place size desc_block_size : ℕ) → Resource → Packets → Cq → Rxq → Result Opened
open_rxq self cq_place size desc_block_size rxq_res packets cq rxq = do
  guard (is_none rxq.hw_regs) already_open
  (index, rxq_res') ← alloc rxq_res
  guard (not (size == 0)) not_an_integer
  guard (not (desc_block_size == 0)) not_an_integer
  let (buf_dma, pool') = alloc_region packets.pool
  let (window, rxq_res'') = get_window index rxq_res'
  cqn ← number cq.cqn
  (rxq', packets', writes) ←
      refill_buffers (opened cq_place size desc_block_size index window buf_dma rxq)
        (record packets { pool = pool' })
  ok (record {
    rxq = rxq';
    cq = record cq { src_ring = some self; handler = some process_rx_cq };
    rxq_res = rxq_res'';
    packets = packets';
    writes =
        open_writes window buf_dma (bit_length desc_block_size - 1) (bit_length size - 1) cqn
        ++ writes;
  })

-- Rxq.enable: raises, if the queue is not open.
unfoldable pub enable : Rxq → Result (Rxq × List Write)
enable rxq = elim rxq.hw_regs [
  | none ↦ err not_open
  | some window ↦ ok (
    record rxq { enabled = true },
    write_dword window mqnic_queue_ctrl_status_reg (bit_or mqnic_queue_cmd_set_enable 1) ∷ [],
  )
]

-- Rxq.disable: nothing, if the queue is not open.
unfoldable pub disable : Rxq → Rxq × List Write
disable rxq = elim rxq.hw_regs [
  | none ↦ (rxq, [])
  | some window ↦ (
    record rxq { enabled = false },
    write_dword window mqnic_queue_ctrl_status_reg (bit_or mqnic_queue_cmd_set_enable 0) ∷ [],
  )
]

-- `if self.cq: self.cq.src_ring = None; self.cq.handler = None`
abbrev pub release_cq : Option ℕ → Cq → Cq
release_cq none cq = cq
release_cq (some place) cq = record cq { src_ring = none; handler = none }

free_index : Option ℕ → Resource → Resource
free_index none r = r
free_index (some i) r = Resource.free i r

close_at : Option ℕ → Rxq → Cq → Resource → Rxq × Cq × Resource × List Write
close_at none rxq cq rxq_res = (rxq, cq, rxq_res, [])
close_at (some window) rxq cq rxq_res =
    let (rxq', writes) = disable rxq in
    (
      record rxq' { cq = none; hw_regs = none; index = none },
      release_cq rxq.cq cq,
      free_index rxq.index rxq_res,
      writes,
    )

-- Rxq.close: nothing, if the queue is not open. `cq` is the queue's CQ.
unfoldable pub close : Rxq → Cq → Resource → Rxq × Cq × Resource × List Write
unfolding close_at free_index
close rxq cq rxq_res = close_at rxq.hw_regs rxq cq rxq_res

-- Rxq.empty, Rxq.full
unfoldable pub empty : Rxq → Bool
empty rxq = rxq.prod_ptr == rxq.cons_ptr

-- The difference of the pointers is compared as integers: a queue whose consumer is ahead is not full.
unfoldable pub full : Rxq → Bool
full rxq = leb (rxq.full_size + rxq.cons_ptr) rxq.prod_ptr

-- What the loop over completions changes: the slots, the packet buffers, the interface's queue of
-- received packets.
abbrev pub Receiving : Type 0
Receiving = Slots × Packets × RxQueue

-- The body of the loop: the packet is delivered, and its slot freed.
unfoldable pub receive : Bytes → Cq → Rxq → (cons_ptr : ℕ) → Receiving → Result Receiving
receive mem cq rxq cons_ptr (info, packets, rx) = do
  let ring_index = completed_index cq rxq.size_mask cons_ptr
  slot ← slot_at info ring_index
  skb ← packet_of mem cq rxq.index cons_ptr slot
  (info', packets') ← free_desc ring_index info packets
  ok (info', packets', push_packet skb rx)

-- What `process_rx_cq` changes.
pub record Processed : Type 0 where
  pub rxq : Rxq
  pub cq : Cq
  pub packets : Packets
  pub rx : RxQueue
  pub writes : List Write

-- Rxq.process_rx_cq on an interface that is up. A round of the CQ is fuel enough for the first
-- loop, the outstanding descriptors for the second.
unfoldable pub process_rx_cq_up : Bytes → Cq → Rxq → Packets → RxQueue → Result Processed
process_rx_cq_up mem cq rxq packets rx = do
  (cq_cons_ptr, (rx_info, packets', received)) ←
      drain cq.size (λ c _. is_empty cq.buf cq.size cq.size_mask cq.stride c) (receive mem cq rxq)
        cq.cons_ptr (rxq.rx_info, packets, rx)
  let cq' = record cq { cons_ptr = cq_cons_ptr }
  writes ← write_cons_ptr cq'
  ring_cons_ptr ←
      advance (rxq.prod_ptr - rxq.cons_ptr) rx_info rxq.size_mask rxq.prod_ptr rxq.cons_ptr
  (rxq', packets'', refill_writes) ←
      refill_buffers (record rxq { rx_info = rx_info; cons_ptr = ring_cons_ptr }) packets'
  ok (record {
    rxq = rxq';
    cq = cq';
    packets = packets'';
    rx = received;
    writes = writes ++ refill_writes;
  })

-- Rxq.process_rx_cq: nothing, if the port is down.
unfoldable pub process_rx_cq_of :
    (port_up : Bool) → Bytes → Cq → Rxq → Packets → RxQueue → Result Processed
unfolding process_rx_cq_up
process_rx_cq_of port_up mem cq rxq packets rx =
    if port_up
    then process_rx_cq_up mem cq rxq packets rx
    else ok (record { rxq = rxq; cq = cq; packets = packets; rx = rx; writes = [] })
