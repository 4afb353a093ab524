-- ===== src/Setup/Built.antt =====
-- `Interface.init`: what it leaves on a device whose register blocks are there.
use schedra_nic.Prelude.{
  ℕ, ◌+◌, ◌≤◌, ◌<◌, ◌≡◌, refl, false, ap, ◌∙◌, arith, List, [], ◌++◌, some, min, length, range_from,
  get_elem?,
}
use schedra_nic.Device.{ok, Write}
use schedra_nic.Regs
use schedra_nic.RegBlocks.{RegBlock, enumerate_reg_blocks, find}
use schedra_nic.Resource.{Resource, get_count}
use schedra_nic.Packets.{Packets}
use schedra_nic.Packets.Ownership.{Owns, Owns-agree, available}
use schedra_nic.Eq.{Eq}
use schedra_nic.Port.{Port, read_dword}
use schedra_nic.Interface.{Interface}
use schedra_nic.Interface.Well.{IsWell, IsEq}
use schedra_nic.Setup.{make_ports, make_eqs, set_mtu, map_channels}
use schedra_nic.Setup.Init.{Initialised, initialised, mtu_of, init_interface, managers, disable_all}
use schedra_nic.Setup.Channels.{windows_from, map_channels_lem}
use schedra_nic.Setup.Supply.{resource_of, disables, resource_off, all_free, Supplied, supplied_lem}
use schedra_nic.Setup.Fresh.{make_eqs_lem}

-- The register blocks of an interface are there, and its ports come up.
pub record Present (rounds : ℕ) (read : ℕ → ℕ) (csr_offset : ℕ) : Type 0 where
  pub blocks : List RegBlock
  pub walk : enumerate_reg_blocks read rounds csr_offset [] ≡ ok blocks
  pub ctrl : RegBlock
  pub has_ctrl :
      find Regs.mqnic_rb_if_ctrl_type (some Regs.mqnic_rb_if_ctrl_ver) 0 blocks ≡ some ctrl
  pub eqm : RegBlock
  pub has_eqm : find Regs.mqnic_rb_eqm_type (some Regs.mqnic_rb_eqm_ver) 0 blocks ≡ some eqm
  pub cqm : RegBlock
  pub has_cqm : find Regs.mqnic_rb_cqm_type (some Regs.mqnic_rb_cqm_ver) 0 blocks ≡ some cqm
  pub tx_qm : RegBlock
  pub has_tx_qm : find Regs.mqnic_rb_tx_qm_type (some Regs.mqnic_rb_tx_qm_ver) 0 blocks ≡ some tx_qm
  pub rx_qm : RegBlock
  pub has_rx_qm : find Regs.mqnic_rb_rx_qm_type (some Regs.mqnic_rb_rx_qm_ver) 0 blocks ≡ some rx_qm
  pub map_rb : RegBlock
  pub has_map :
      find Regs.mqnic_rb_rx_queue_map_type (some Regs.mqnic_rb_rx_queue_map_ver) 0 blocks
      ≡ some map_rb
  pub ports : List Port
  pub port_writes : List Write
  pub come_up :
      make_ports rounds read blocks
        (range_from 0 (read_dword read ctrl Regs.mqnic_rb_if_ctrl_reg_port_count))
      ≡ ok (ports, port_writes)

managers_lem :
    {rounds : ℕ} {read : ℕ → ℕ} {csr_offset : ℕ} (p : Present rounds read csr_offset)
    → managers read p.blocks
      ≡ ok (
        resource_of read p.eqm Regs.mqnic_max_eq,
        resource_of read p.cqm Regs.mqnic_max_cq,
        resource_of read p.tx_qm Regs.mqnic_max_txq,
        resource_of read p.rx_qm Regs.mqnic_max_rxq,
      )
unfolding managers
managers_lem p = rw (p.has_eqm, p.has_cqm, p.has_tx_qm, p.has_rx_qm) refl

-- An interface without queues is well formed, if its EQs are.
pub no_queues-IsWell :
    (i : Interface) {packets : Packets} {other : ℕ → ℕ} {slack : ℕ}
    → i.cqs ≡ []
    → i.txqs ≡ []
    → i.rxqs ≡ []
    → ((p : ℕ) (eq : Eq) → get_elem? i.eqs p ≡ some eq → IsEq i.cqs eq)
    → Owns packets other
    → slack ≤ available packets
    → IsWell i packets other slack
no_queues-IsWell i {other = other} no_cq no_tx no_rx eqs owns enough = record {
  tx_open = λ r t h. absurd (ground (arith, no_tx, h));
  rx_open = λ r t h. absurd (ground (arith, no_rx, h));
  cq_open = λ p q h. absurd (ground (arith, no_cq, h));
  one_each = λ p p' k ne h. absurd (ground (arith, no_cq, h));
  eq_open = eqs;
  owns = Owns-agree (λ j. ground (arith, no_tx, no_rx)) owns;
  enough = ground (arith, no_tx, no_rx, enough);
}

-- What init leaves.
pub record Built {rounds : ℕ} {read : ℕ → ℕ} {csr_offset : ℕ} (p : Present rounds read csr_offset)
    (index : ℕ) (packets : Packets) (other : ℕ → ℕ) (slack : ℕ) (s : Initialised) : Type 0 where
  pub well : IsWell s.interface s.packets other slack
  pub owns : Owns s.packets other
  pub left : slack ≤ available s.packets
  pub port_down : s.interface.port_up ≡ false
  pub how_many : length s.interface.eqs ≡ min (read (p.eqm.offset + 0x10)) Regs.mqnic_max_eq
  pub interrupts : (x : ℕ) (eq : Eq) → get_elem? s.interface.eqs x ≡ some eq → eq.irq ≡ some index
  pub numbered :
      (x : ℕ) (eq : Eq) → get_elem? s.interface.eqs x ≡ some eq → (n : ℕ) × (eq.eqn ≡ some n)
  pub empty : (s.interface.cqs ≡ []) × (s.interface.txqs ≡ []) × (s.interface.rxqs ≡ [])
  pub cqs_free : Supplied s.interface.cq_res (min (read (p.cqm.offset + 0x10)) Regs.mqnic_max_cq)
  pub txqs_free :
      Supplied s.interface.txq_res (min (read (p.tx_qm.offset + 0x10)) Regs.mqnic_max_txq)
  pub rxqs_free :
      Supplied s.interface.rxq_res (min (read (p.rx_qm.offset + 0x10)) Regs.mqnic_max_rxq)
  pub ports_found : s.settings.ports ≡ p.ports
  pub tables :
      s.settings.rx_queue_map_indir_table
      ≡ windows_from read p.map_rb 0 (read_dword read p.ctrl Regs.mqnic_rb_if_ctrl_reg_port_count)
  pub tx_depth : s.settings.tx_fifo_depth ≡ s.settings.max_tx_mtu
  pub rx_depth : s.settings.rx_fifo_depth ≡ s.settings.max_rx_mtu
  pub map_writes : List Write
  pub mapped :
      map_channels read p.map_rb
        (range_from 0 (read_dword read p.ctrl Regs.mqnic_rb_if_ctrl_reg_port_count))
        []
      ≡ ok (s.settings.rx_queue_map_indir_table, map_writes)
  pub eq_writes : List Write
  pub eqs_made :
      make_eqs index
        (range_from 0 (min (read (p.eqm.offset + 0x10)) Regs.mqnic_max_eq))
        (disable_all Regs.mqnic_eq_ctrl_status_reg (resource_of read p.eqm Regs.mqnic_max_eq)).0
        packets.pool
      ≡ ok (s.interface.eqs, s.interface.eq_res, s.packets.pool, eq_writes)
  pub disabled :
      s.writes
      ≡ (set_mtu p.ctrl (mtu_of read p.ctrl) ++ map_writes)
        ++ (disables Regs.mqnic_eq_ctrl_status_reg (resource_of read p.eqm Regs.mqnic_max_eq)
            ++ disables Regs.mqnic_cq_ctrl_status_reg (resource_of read p.cqm Regs.mqnic_max_cq)
            ++ disables Regs.mqnic_queue_ctrl_status_reg
                (resource_of read p.tx_qm Regs.mqnic_max_txq)
            ++ disables Regs.mqnic_queue_ctrl_status_reg
                (resource_of read p.rx_qm Regs.mqnic_max_rxq)
            ++ (p.port_writes ++ eq_writes))

pub init_interface_lem :
    {rounds : ℕ} (read : ℕ → ℕ) (csr_offset index : ℕ) {packets : Packets} {other : ℕ → ℕ}
    {slack : ℕ} (p : Present rounds read csr_offset)
    → Owns packets other
    → slack < available packets
    → (s : Initialised) × (init_interface rounds read csr_offset index packets ≡ ok s)
      × Built p index packets other slack s
unfolding init_interface get_count
init_interface_lem {rounds} read csr_offset index {packets} {other} {slack} p owns enough =
    let eq_res : Resource = resource_of read p.eqm Regs.mqnic_max_eq in
    let cq_res : Resource = resource_of read p.cqm Regs.mqnic_max_cq in
    let tx_res : Resource = resource_of read p.tx_qm Regs.mqnic_max_txq in
    let rx_res : Resource = resource_of read p.rx_qm Regs.mqnic_max_rxq in
    let eq_off = resource_off Regs.mqnic_eq_ctrl_status_reg read p.eqm Regs.mqnic_max_eq in
    let cq_off = resource_off Regs.mqnic_cq_ctrl_status_reg read p.cqm Regs.mqnic_max_cq in
    let tx_off = resource_off Regs.mqnic_queue_ctrl_status_reg read p.tx_qm Regs.mqnic_max_txq in
    let rx_off = resource_off Regs.mqnic_queue_ctrl_status_reg read p.rx_qm Regs.mqnic_max_rxq in
    let (windows, map_writes, m, all) =
      map_channels_lem read p.map_rb (read_dword read p.ctrl Regs.mqnic_rb_if_ctrl_reg_port_count) 0
        [] refl in
    let (made, e, built) =
      make_eqs_lem index (min (read (p.eqm.offset + 0x10)) Regs.mqnic_max_eq) 0
        (disable_all Regs.mqnic_eq_ctrl_status_reg eq_res).0
        (eq_off.free_list ∙ (all_free read p.eqm Regs.mqnic_max_eq).0) eq_off.valid owns in
    let made_all : make_eqs index
          (range_from 0 (get_count (disable_all Regs.mqnic_eq_ctrl_status_reg eq_res).0))
          (disable_all Regs.mqnic_eq_ctrl_status_reg eq_res).0 packets.pool
        ≡ ok made =
      ap
        (λ n.
          make_eqs index (range_from 0 n) (disable_all Regs.mqnic_eq_ctrl_status_reg eq_res).0
            packets.pool)
        (eq_off.count ∙ (all_free read p.eqm Regs.mqnic_max_eq).1)
      ∙ e in
    let few : min (read (p.eqm.offset + 0x10)) Regs.mqnic_max_eq ≤ 1 = omega arith in
    let before : List Write = set_mtu p.ctrl (mtu_of read p.ctrl) ++ map_writes in
    let packets' : Packets = record packets { pool = made.2 } in
    let i : Initialised =
      initialised read p.blocks p.ctrl p.map_rb windows p.ports made.0
        (
          made.1,
          (disable_all Regs.mqnic_cq_ctrl_status_reg cq_res).0,
          (disable_all Regs.mqnic_queue_ctrl_status_reg tx_res).0,
          (disable_all Regs.mqnic_queue_ctrl_status_reg rx_res).0,
        )
        packets'
        (before
          ++ ((disable_all Regs.mqnic_eq_ctrl_status_reg eq_res).1
              ++ (disable_all Regs.mqnic_cq_ctrl_status_reg cq_res).1
              ++ (disable_all Regs.mqnic_queue_ctrl_status_reg tx_res).1
              ++ (disable_all Regs.mqnic_queue_ctrl_status_reg rx_res).1
              ++ (p.port_writes ++ made.3))) in
    (
      i,
      rw (p.walk, p.has_ctrl, managers_lem p, p.has_map, m, p.come_up, made_all) refl,
      record {
        well =
            no_queues-IsWell i.interface refl refl refl (λ x eq h. (built.each x eq h).0) built.owns
              (omega (arith, built.left, enough, few));
        owns = built.owns;
        left = omega (arith, built.left, enough, few);
        port_down = refl;
        how_many = built.how_many;
        interrupts = λ x eq h. (built.each x eq h).1;
        numbered = λ x eq h. (built.each x eq h).3;
        empty = (refl, refl, refl);
        cqs_free = supplied_lem Regs.mqnic_cq_ctrl_status_reg read p.cqm Regs.mqnic_max_cq;
        txqs_free = supplied_lem Regs.mqnic_queue_ctrl_status_reg read p.tx_qm Regs.mqnic_max_txq;
        rxqs_free = supplied_lem Regs.mqnic_queue_ctrl_status_reg read p.rx_qm Regs.mqnic_max_rxq;
        ports_found = refl;
        tables = all;
        tx_depth = refl;
        rx_depth = refl;
        map_writes = map_writes;
        mapped = m;
        eq_writes = made.3;
        eqs_made = e;
        disabled = rw (eq_off.writes, cq_off.writes, tx_off.writes, rx_off.writes) refl;
      },
    )
