-- ===== src/Interface.antt =====
-- `class Interface` of tb/mqnic_core_pcie_us_schedule/mqnic.py, with `Eq.process_eq` and
-- `Driver.interrupt_handler`, which work on all its queues. An object is known by its place in a
-- list of the interface.
pub mod Well
pub mod Cqs
pub mod TxServed
pub mod RxServed
pub mod Arrivals
pub mod Handlers
pub mod Events
pub mod EqServed
pub mod Serve
pub mod Interrupt
pub mod Steps
pub mod Run
pub mod Example
mod Tests
pub mod Sends
pub mod TxReplaced
use schedra_nic.Prelude.{
  ℕ, ◌*◌, ◌+◌, Bool, true, false, List, [], ◌∷◌, ◌++◌, Option, none, some, ◌==◌, if◌then◌else◌,
  get_elem?, set, bit_and, length, range_from,
}
use schedra_nic.Device.{Result, ok, err, index_error, attribute_error, type_error, ◌>>=◌, Write}
use schedra_nic.Regs.{mqnic_event_type_cpl}
use schedra_nic.Resource.{Resource}
use schedra_nic.Struct.{Bytes, word}
use schedra_nic.Drain.{is_empty, drain}
use schedra_nic.Packets.{Packets}
use schedra_nic.Eq
use schedra_nic.Eq.{Eq, cq_at}
use schedra_nic.Cq
use schedra_nic.Cq.{Cq, Handler, process_tx_cq, process_rx_cq}
use schedra_nic.Txq
use schedra_nic.Txq.{Txq, process_tx_cq_of}
use schedra_nic.Rxq
use schedra_nic.Xmit.{Outcome, port_down, waits, sent, start_xmit}
use schedra_nic.Rxq.{Rxq, RxQueue, Packet, process_rx_cq_of}

-- The objects that the interface has made, and what it has received. `cqs` are the CQs that its
-- queues and the tables of its EQs refer to.
pub record Interface : Type 0 where
  pub port_up : Bool
  pub eq_res : Resource
  pub cq_res : Resource
  pub txq_res : Resource
  pub rxq_res : Resource
  pub eqs : List Eq
  pub cqs : List Cq
  pub txqs : List Txq
  pub rxqs : List Rxq
  pub rx : RxQueue

-- The object at a place.
abbrev pub nth {ℓ} : {A : Type ℓ} → List A → ℕ → Result A
nth l i = elim (get_elem? l i) [ none ↦ err index_error | some a ↦ ok a ]

-- What a handler changes: the interface, the packet buffers, and the registers that it writes.
abbrev pub Changed : Type 0
Changed = Interface × Packets × List Write

-- `cq.src_ring.index`, which every handler logs first: AttributeError without a ring.
abbrev pub source : Option ℕ → Result ℕ
source none = err attribute_error
source (some ring) = ok ring

-- `await cq.handler(cq)`: TypeError, if there is none.
unfoldable pub dispatch :
    Bytes → (place : ℕ) → Cq → Option Handler → Interface → Packets → Result Changed
dispatch mem place cq none i packets = err type_error
dispatch mem place cq (some process_tx_cq) i packets = do
  ring ← source cq.src_ring
  txq ← nth i.txqs ring
  r ← process_tx_cq_of i.port_up cq txq packets
  ok (record i { cqs = set i.cqs place r.cq; txqs = set i.txqs ring r.txq }, r.packets, r.writes)
dispatch mem place cq (some process_rx_cq) i packets = do
  ring ← source cq.src_ring
  rxq ← nth i.rxqs ring
  r ← process_rx_cq_of i.port_up mem cq rxq packets i.rx
  ok (
    record i { cqs = set i.cqs place r.cq; rxqs = set i.rxqs ring r.rxq; rx = r.rx },
    r.packets,
    r.writes,
  )

-- A field of the event at a pointer, by its offset in `<HHLLLLLLL`.
unfoldable pub event_field : Eq → (cons_ptr offset : ℕ) → ℕ
event_field eq cons_ptr offset = word eq.buf (bit_and cons_ptr eq.size_mask * eq.stride + offset) 2

-- `cq = self.cq_table[...]; await cq.handler(cq); await cq.arm()`
unfoldable pub complete_event : Bytes → Eq → (number : ℕ) → Changed → Result Changed
complete_event mem eq number (i, packets, writes) = do
  place ← cq_at number eq.cq_table
  cq ← nth i.cqs place
  (i', packets', handled) ← dispatch mem place cq cq.handler i packets
  cq' ← nth i'.cqs place
  ok (i', packets', writes ++ handled ++ Cq.arm cq')

-- The body of the loop over events: other types of event are passed over.
unfoldable pub event : Bytes → Eq → (cons_ptr : ℕ) → Changed → Result Changed
event mem eq cons_ptr s =
    let completion = complete_event mem eq (event_field eq cons_ptr 2) s in
    if event_field eq cons_ptr 0 == mqnic_event_type_cpl then completion else ok s

-- Eq.process_eq of the EQ at a place. A round of the EQ is fuel enough.
unfoldable pub process_eq : Bytes → (place : ℕ) → Interface → Packets → Result Changed
process_eq mem place i packets =
    let up = (do
      eq ← nth i.eqs place
      (eq_cons_ptr, (i', packets', writes)) ←
          drain eq.size (λ c _. is_empty eq.buf eq.size eq.size_mask eq.stride c) (event mem eq)
            eq.cons_ptr (i, packets, [])
      let eq' = record eq { cons_ptr = eq_cons_ptr }
      published ← Eq.write_cons_ptr eq'
      ok (record i' { eqs = set i'.eqs place eq' }, packets', writes ++ published)) in
    if i.port_up then up else ok (i, packets, [])

-- `eq.irq == index`
abbrev pub irq_is : ℕ → Option ℕ → Bool
irq_is index none = false
irq_is index (some irq) = irq == index

-- `await eq.process_eq(); await eq.arm()`
unfoldable pub serve : Bytes → (place : ℕ) → Changed → Result Changed
serve mem place (i, packets, writes) = do
  (i', packets', w) ← process_eq mem place i packets
  eq ← nth i'.eqs place
  ok (i', packets', writes ++ w ++ Eq.arm eq)

-- `for eq in i.eq` of `Driver.interrupt_handler`, for the EQs at the given places.
unfoldable pub serve_all : Bytes → (index : ℕ) → List ℕ → Changed → Result Changed
serve_all mem index [] s = ok s
serve_all mem index (place ∷ places) s = do
  eq ← nth s.0.eqs place
  s' ← (if irq_is index eq.irq then serve mem place s else ok s)
  serve_all mem index places s'

-- Driver.interrupt_handler, for one interface of the driver's list.
unfoldable pub interrupt_handler : Bytes → (index : ℕ) → Interface → Packets → Result Changed
interrupt_handler mem index i packets =
    serve_all mem index (range_from 0 (length i.eqs)) (i, packets, [])

-- Interface.recv_nowait: the oldest packet, or None.
unfoldable pub recv_nowait : RxQueue → Option Packet × RxQueue
recv_nowait rx = elim rx.pkt_rx_queue [
  | [] ↦ (none, rx)
  | skb ∷ rest ↦ (some skb, record rx { pkt_rx_queue = rest })
]

-- The place of `ring_index`.
abbrev pub place_of : Option ℕ → ℕ
place_of none = 0
place_of (some i) = i

-- What a call of start_xmit changes.
pub record After : Type 0 where
  pub interface : Interface
  pub packets : Packets
  pub mem : Bytes
  pub writes : List Write

unfoldable pub after : (place : ℕ) → Interface → Packets → Bytes → Outcome → After
after place i packets mem port_down = record {
  interface = i;
  packets = packets;
  mem = mem;
  writes = [];
}
after place i packets mem (waits ring) = record {
  interface = record i { txqs = set i.txqs place ring };
  packets = packets;
  mem = mem;
  writes = [];
}
after place i packets mem (sent s) = record {
  interface = record i { txqs = set i.txqs place s.txq };
  packets = s.packets;
  mem = s.mem;
  writes = s.writes;
}

-- Interface.start_xmit, with the ring that it changes put back in its place.
unfoldable pub xmit :
    (max_tx_mtu rank : ℕ) (tx_ring csum_start csum_offset : Option ℕ) (skb : List ℕ)
    → Interface
    → Packets
    → Bytes
    → Result After
xmit max_tx_mtu rank tx_ring csum_start csum_offset skb i packets mem = do
  o ← start_xmit i.port_up max_tx_mtu rank tx_ring csum_start csum_offset skb i.txqs packets mem
  ok (after (place_of tx_ring) i packets mem o)

-- Interface.wait: whether it waits, with the event that it has cleared.
unfoldable pub wait : RxQueue → Bool × RxQueue
wait rx = elim rx.pkt_rx_queue [
  | [] ↦ (true, record rx { pkt_rx_sync = false })
  | skb ∷ rest ↦ (false, rx)
]

-- Interface.recv, up to its return or its wait (none); after the wait it goes on as recv_nowait.
unfoldable pub recv : RxQueue → Option (Option Packet) × RxQueue
unfolding wait recv_nowait
recv rx = if (wait rx).0 then (none, (wait rx).1) else (some (recv_nowait rx).0, (recv_nowait rx).1)
