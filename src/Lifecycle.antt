-- ===== src/Lifecycle.antt =====
-- `Interface.open` and `Interface.close` of tb/mqnic_core_pcie_us_schedule/mqnic.py. A new object is
-- known by the place that it gets in its list.
pub mod Links
pub mod Added
pub mod OpenCq
pub mod Opening
pub mod Rounds
pub mod Open
pub mod Close
mod Tests
use schedra_nic.Prelude.{
  ℕ, ◌+◌, ◌-◌, ◌%◌, Bool, true, false, not, List, [], ◌∷◌, ◌++◌, ◌==◌, length, range_from, set,
  bit_or,
}
use schedra_nic.Device.{Result, ok, err, type_error, zero_division_error, guard, ◌>>=◌, ◌>>◌, Write}
use schedra_nic.Regs.{mqnic_port_tx_ctrl_en, mqnic_port_rx_ctrl_en}
use schedra_nic.Resource.{get_count}
use schedra_nic.Packets.{Packets}
use schedra_nic.Ring.{Slots, free_buf}
use schedra_nic.Eq.{Eq}
use schedra_nic.Cq
use schedra_nic.Cq.{Cq, open_cq}
use schedra_nic.Txq
use schedra_nic.Txq.{Txq, open_txq}
use schedra_nic.Rxq
use schedra_nic.Rxq.{Rxq, open_rxq}
use schedra_nic.Port.{Port, set_tx_ctrl, set_rx_ctrl}
use schedra_nic.Interface.{Interface, Changed, nth}

-- `self.eq[k % len(self.eq)]`, by its place.
unfoldable pub eq_for : (k : ℕ) → List Eq → Result (ℕ × Eq)
eq_for k eqs = do
  guard (not (length eqs == 0)) zero_division_error
  eq ← nth eqs (k % length eqs)
  ok (k % length eqs, eq)

-- `cq = Cq(self); await cq.open(..., 1024); await cq.arm()`
unfoldable pub open_one_cq : (k : ℕ) → Changed → Result (Cq × Changed)
open_one_cq k (i, packets, writes) = do
  (e, eq) ← eq_for k i.eqs
  o ← open_cq (length i.cqs) e 1024 i.cq_res packets.pool eq Cq.new
  ok (
    o.cq,
    (
      record i { eqs = set i.eqs e o.eq; cqs = i.cqs ++ o.cq ∷ []; cq_res = o.cq_res },
      record packets { pool = o.pool },
      writes ++ o.writes ++ Cq.arm o.cq,
    ),
  )

-- The body of the loop over the receive queues.
unfoldable pub open_one_rx : (k : ℕ) → Changed → Result Changed
open_one_rx k s = do
  (cq, (i, packets, writes)) ← open_one_cq k s
  o ← open_rxq (length i.rxqs) (length s.0.cqs) 8192 4 i.rxq_res packets cq Rxq.new
  (rxq, enabled) ← Rxq.enable o.rxq
  ok (
    record i {
      cqs = set i.cqs (length s.0.cqs) o.cq;
      rxqs = i.rxqs ++ rxq ∷ [];
      rxq_res = o.rxq_res;
    },
    o.packets,
    writes ++ o.writes ++ enabled,
  )

-- The body of the loop over the transmit queues.
unfoldable pub open_one_tx : (k : ℕ) → Changed → Result Changed
open_one_tx k s = do
  (cq, (i, packets, writes)) ← open_one_cq k s
  o ← open_txq (length i.txqs) (length s.0.cqs) 512 4 i.txq_res packets.pool cq Txq.new
  (txq, enabled) ← Txq.enable o.txq
  ok (
    record i {
      cqs = set i.cqs (length s.0.cqs) o.cq;
      txqs = i.txqs ++ txq ∷ [];
      txq_res = o.txq_res;
    },
    record packets { pool = o.pool },
    writes ++ o.writes ++ enabled,
  )

unfoldable pub open_rxqs : List ℕ → Changed → Result Changed
open_rxqs [] s = ok s
open_rxqs (k ∷ ks) s = do s' ← open_one_rx k s; open_rxqs ks s'

unfoldable pub open_txqs : List ℕ → Changed → Result Changed
open_txqs [] s = ok s
open_txqs (k ∷ ks) s = do s' ← open_one_tx k s; open_txqs ks s'

-- Interface.open
unfoldable pub open_interface : List Port → Interface → Packets → Result Changed
open_interface ports i packets = do
  s ← open_rxqs (range_from 0 (get_count i.rxq_res)) (i, packets, [])
  (i', packets', writes) ← open_txqs (range_from 0 (get_count i.txq_res)) s
  port ← nth ports 0
  ok (
    record i' { port_up = true },
    packets',
    writes ++ set_tx_ctrl mqnic_port_tx_ctrl_en port ++ set_rx_ctrl mqnic_port_rx_ctrl_en port,
  )

-- `await q.free_buf()` of the first queue: the buffers are freed, and then the await raises, since
-- free_buf is no coroutine. The rest of the loop is not reached.
unfoldable pub close_first : (size_mask prod_ptr cons_ptr : ℕ) → Slots → Packets → Result Changed
close_first size_mask prod_ptr cons_ptr info packets = do
  freed ← free_buf (prod_ptr - cons_ptr) size_mask prod_ptr cons_ptr info packets
  err type_error

unfoldable pub close_txqs : List Txq → Packets → Result Changed → Result Changed
close_txqs [] packets rest = rest
close_txqs (q ∷ qs) packets rest = close_first q.size_mask q.prod_ptr q.cons_ptr q.tx_info packets

unfoldable pub close_rxqs : List Rxq → Packets → Result Changed → Result Changed
close_rxqs [] packets rest = rest
close_rxqs (q ∷ qs) packets rest = close_first q.size_mask q.prod_ptr q.cons_ptr q.rx_info packets

-- Interface.close. `q.disable()` is a coroutine that is not awaited, and does nothing.
unfoldable pub close_interface : List Port → Interface → Packets → Result Changed
close_interface ports i packets = do
  port ← nth ports 0
  close_txqs i.txqs packets (
      close_rxqs i.rxqs packets (
        ok (
          record i { port_up = false; txqs = []; rxqs = [] },
          packets,
          set_rx_ctrl 0 port ++ set_tx_ctrl 0 port,
        )))
