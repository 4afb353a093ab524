-- ===== src/Lifecycle/Open.antt =====
-- `Interface.open`, and `Interface.init` before it.
use schedra_nic.Prelude.{
  ℕ, ◌+◌, ◌*◌, ◌≤◌, ◌<◌, ◌≡◌, refl, ap, ◌∙◌, true, List, [], ◌++◌, some, arith, length, get_elem?,
  min,
}
use schedra_nic.Device.{ok, Write}
use schedra_nic.Regs
use schedra_nic.RegBlocks.{RegBlock}
use schedra_nic.Regs.{mqnic_port_tx_ctrl_en, mqnic_port_rx_ctrl_en}
use schedra_nic.Resource.{Resource, get_count}
use schedra_nic.Resource.Stock.{Stocked, Stocked-le}
use schedra_nic.Packets.{Packets}
use schedra_nic.Packets.Ownership.{Owns, available}
use schedra_nic.Txq.{Txq}
use schedra_nic.Rxq.{Rxq}
use schedra_nic.Port.{Port, set_tx_ctrl, set_rx_ctrl}
use schedra_nic.Interface.{Interface, Changed, nth}
use schedra_nic.Interface.Well.{IsWell}
use schedra_nic.Setup.Init.{Initialised, init_interface}
use schedra_nic.Setup.Built.{Built, Present, init_interface_lem}
use schedra_nic.Setup.Supply.{Supplied}
use schedra_nic.Lifecycle.{open_interface}
use schedra_nic.Lifecycle.Added.{port_up-IsWell}
use schedra_nic.Lifecycle.Opening.{Openable, Openable-Opening, RxReady, TxReady}
use schedra_nic.Lifecycle.Rounds.{open_rxqs_lem, open_txqs_lem}

-- What open leaves of an interface that gets `rx` receive and `tx` transmit queues, which stand
-- behind those that it had: its last two writes enable transmission and reception of the port.
pub record Up (i : Interface) (port : Port) (rx tx : ℕ) (other : ℕ → ℕ) (slack : ℕ) (s : Changed)
    : Type 0 where
  pub port_up : s.0.port_up ≡ true
  pub well : IsWell s.0 s.1 other slack
  pub rx_ready : (r : ℕ) (t : Rxq) → length i.rxqs ≤ r → get_elem? s.0.rxqs r ≡ some t → RxReady t
  pub tx_ready : (r : ℕ) (t : Txq) → length i.txqs ≤ r → get_elem? s.0.txqs r ≡ some t → TxReady t
  pub rx_made : length s.0.rxqs ≡ length i.rxqs + rx
  pub tx_made : length s.0.txqs ≡ length i.txqs + tx
  pub queue_writes : List Write
  pub writes :
      s.2
      ≡ queue_writes
        ++ set_tx_ctrl mqnic_port_tx_ctrl_en port
        ++ set_rx_ctrl mqnic_port_rx_ctrl_en port

port_found :
    (ports : List Port) {port : Port} → get_elem? ports 0 ≡ some port → nth ports 0 ≡ ok port
port_found ports h = ground (arith, h)

-- An interface opens that is well formed with 8194 buffers more for each receive queue and 514 for
-- each transmit queue that it is to get, and has a first port, an EQ, EQs with numbers, and as many
-- free numbers of CQs and of queues as it needs: no error is raised; its port is up; behind those that
-- it had it has the new queues, each enabled, each of the receive queues full, every descriptor with a
-- buffer that it names to the device, and each of the transmit queues empty; the last writes enable
-- transmission and reception of the first port; and it is well formed.
pub open_interface_lem :
    (rx tx : ℕ) (ports : List Port) {port : Port} (i : Interface) (packets : Packets)
    {other : ℕ → ℕ} {slack : ℕ}
    → get_elem? ports 0 ≡ some port
    → get_count i.rxq_res ≡ rx
    → get_count i.txq_res ≡ tx
    → Openable other slack rx tx (i, packets, [])
    → (s : Changed) × (open_interface ports i packets ≡ ok s) × Up i port rx tx other slack s
unfolding open_interface
open_interface_lem rx tx ports {port} i packets {other} {slack} first n m op =
    let (s, e, op') =
      open_rxqs_lem 0 rx tx (i, packets, []) (Openable-Opening (i, packets, []) op) in
    let (s', f, op'') = open_txqs_lem 0 tx s op' in
    (
      (
        record s'.0 { port_up = true },
        s'.1,
        s'.2 ++ set_tx_ctrl mqnic_port_tx_ctrl_en port ++ set_rx_ctrl mqnic_port_rx_ctrl_en port,
      ),
      rw (n, m, e, f, port_found ports first) refl,
      record {
        port_up = refl;
        well = port_up-IsWell (omega arith) op''.well;
        rx_ready = op''.rx_ready;
        tx_ready = op''.tx_ready;
        rx_made = omega (arith, op''.rx_made);
        tx_made = omega (arith, op''.tx_made);
        queue_writes = s'.2;
        writes = refl;
      },
    )

-- The queues of a manager block that the driver uses.
abbrev pub queues : (ℕ → ℕ) → RegBlock → (limit : ℕ) → ℕ
queues read rb limit = min (read (rb.offset + 0x10)) limit

-- What is left of a supply when some of it is enough.
Supplied-for : {r : Resource} {m n : ℕ} → m ≤ n → Supplied r n → Stocked r m
Supplied-for le s = Stocked-le le s.stocked

module _ {rounds : ℕ} {read : ℕ → ℕ} {csr_offset : ℕ} (p : Present rounds read csr_offset) where
  abbrev pub rxqs_of : ℕ
  rxqs_of = queues read p.rx_qm Regs.mqnic_max_rxq

  abbrev pub txqs_of : ℕ
  txqs_of = queues read p.tx_qm Regs.mqnic_max_txq

  -- An interface that `init` has just made can be opened.
  Built-Openable :
      {index : ℕ} {packets : Packets} {other : ℕ → ℕ} {slack : ℕ} {s : Initialised}
      → 0 < read (p.eqm.offset + 0x10)
      → rxqs_of + txqs_of ≤ queues read p.cqm Regs.mqnic_max_cq
      → Built p index packets other (slack + 8194 * rxqs_of + 514 * txqs_of) s
      → Openable other slack rxqs_of txqs_of (s.interface, s.packets, [])
  Built-Openable some_eq enough b = record {
    well = b.well;
    some_eq = omega (arith, b.how_many);
    numbered = b.numbered;
    cq_left = Supplied-for enough b.cqs_free;
    rx_left = b.rxqs_free.stocked;
    tx_left = b.txqs_free.stocked;
  }

  -- On a device whose register blocks are there, whose ports come up, that has a port and an EQ,
  -- and as many CQs as the queues that the driver uses, while, besides what is kept for others, 8194
  -- buffers for each receive queue, 514 for each transmit queue and one more are available: `init` raises nothing, and
  -- `open` of the interface that it leaves raises nothing and leaves it up and well formed, with as
  -- many queues as the device reports, up to the driver's limits of 4 and 32, all enabled, the
  -- receive queues full, every descriptor with a buffer that it names to the device, and the transmit
  -- queues empty; the last writes enable transmission and reception of the first port.
  pub open-init_interface :
      (index : ℕ) {packets : Packets} {other : ℕ → ℕ} {slack : ℕ} {port : Port}
      → get_elem? p.ports 0 ≡ some port
      → 0 < read (p.eqm.offset + 0x10)
      → rxqs_of + txqs_of ≤ queues read p.cqm Regs.mqnic_max_cq
      → Owns packets other
      → slack + 8194 * rxqs_of + 514 * txqs_of < available packets
      → (s : Initialised) × (init_interface rounds read csr_offset index packets ≡ ok s)
        × ((s' : Changed) × (open_interface s.settings.ports s.interface s.packets ≡ ok s')
            × Up s.interface port rxqs_of txqs_of other slack s')
  open-init_interface index first some_eq enough owns buffers =
      let (s, e, b) = init_interface_lem read csr_offset index p owns buffers in
      let (s', f, up) =
        open_interface_lem rxqs_of txqs_of s.settings.ports s.interface s.packets
          (ap (λ l. get_elem? l 0) b.ports_found ∙ first) b.rxqs_free.count b.txqs_free.count
          (Built-Openable some_eq enough b) in
      (s, e, (s', f, up))
