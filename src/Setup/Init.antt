-- ===== src/Setup/Init.antt =====
-- `Interface.init` as a whole.
use schedra_nic.Prelude.{ℕ, ◌^◌, false, List, [], ◌++◌, some, bit_and, bit_or, shr, min, range_from}
use schedra_nic.Device.{Result, ok, ◌>>=◌, Write}
use schedra_nic.Regs
use schedra_nic.Drain.{truth}
use schedra_nic.RegBlocks.{RegBlock, enumerate_reg_blocks, find}
use schedra_nic.Resource.{Resource, get_count}
use schedra_nic.Packets.{Packets}
use schedra_nic.Eq.{Eq}
use schedra_nic.Port.{Port, read_dword, block}
use schedra_nic.Interface.{Interface}
use schedra_nic.Setup.{Settings, set_mtu, map_channels, manager, write_all, make_ports, make_eqs}

-- A call's interface, settings and pool, and its writes.
pub record Initialised : Type 0 where
  pub interface : Interface
  pub settings : Settings
  pub packets : Packets
  pub writes : List Write

-- What is read from the control block, and the ports.
abbrev pub settings_of :
    (ℕ → ℕ) → List RegBlock → (ctrl map_rb : RegBlock) → List ℕ → List Port → Settings
settings_of read blocks ctrl map_rb windows ports =
    let features = read_dword read ctrl Regs.mqnic_rb_if_ctrl_reg_features in
    record {
      reg_blocks = blocks;
      if_ctrl_rb = ctrl;
      rx_queue_map_rb = map_rb;
      if_features = features;
      if_feature_rss = truth (bit_and features Regs.mqnic_if_feature_rss);
      if_feature_ptp_ts = truth (bit_and features Regs.mqnic_if_feature_ptp_ts);
      if_feature_tx_csum = truth (bit_and features Regs.mqnic_if_feature_tx_csum);
      if_feature_rx_csum = truth (bit_and features Regs.mqnic_if_feature_rx_csum);
      if_feature_rx_hash = truth (bit_and features Regs.mqnic_if_feature_rx_hash);
      if_feature_lfc = truth (bit_and features Regs.mqnic_if_feature_lfc);
      if_feature_pfc = truth (bit_and features Regs.mqnic_if_feature_pfc);
      port_count = read_dword read ctrl Regs.mqnic_rb_if_ctrl_reg_port_count;
      max_tx_mtu = read_dword read ctrl Regs.mqnic_rb_if_ctrl_reg_max_tx_mtu;
      max_rx_mtu = read_dword read ctrl Regs.mqnic_rb_if_ctrl_reg_max_rx_mtu;
      tx_fifo_depth = read_dword read ctrl Regs.mqnic_rb_if_ctrl_reg_tx_fifo_depth;
      rx_fifo_depth = read_dword read ctrl Regs.mqnic_rb_if_ctrl_reg_rx_fifo_depth;
      rx_queue_map_indir_table_size =
          2 ^ bit_and (shr (read_dword read map_rb Regs.mqnic_rb_rx_queue_map_reg_cfg) 8) 0xff;
      rx_queue_map_indir_table = windows;
      ports = ports;
    }

-- `min(self.max_tx_mtu, self.max_rx_mtu, 9214)`
abbrev pub mtu_of : (ℕ → ℕ) → RegBlock → ℕ
mtu_of read ctrl =
    min
      (min (read_dword read ctrl Regs.mqnic_rb_if_ctrl_reg_max_tx_mtu)
        (read_dword read ctrl Regs.mqnic_rb_if_ctrl_reg_max_rx_mtu))
      9214

-- The resources of the four kinds of queues.
unfoldable pub managers :
    (ℕ → ℕ) → List RegBlock → Result (Resource × Resource × Resource × Resource)
unfolding manager
managers read blocks = do
  eq_res ←
      manager read (find Regs.mqnic_rb_eqm_type (some Regs.mqnic_rb_eqm_ver) 0 blocks)
        Regs.mqnic_rb_eqm_reg_offset Regs.mqnic_rb_eqm_reg_count Regs.mqnic_rb_eqm_reg_stride
        Regs.mqnic_max_eq
  cq_res ←
      manager read (find Regs.mqnic_rb_cqm_type (some Regs.mqnic_rb_cqm_ver) 0 blocks)
        Regs.mqnic_rb_cqm_reg_offset Regs.mqnic_rb_cqm_reg_count Regs.mqnic_rb_cqm_reg_stride
        Regs.mqnic_max_cq
  txq_res ←
      manager read (find Regs.mqnic_rb_tx_qm_type (some Regs.mqnic_rb_tx_qm_ver) 0 blocks)
        Regs.mqnic_rb_tx_qm_reg_offset Regs.mqnic_rb_tx_qm_reg_count Regs.mqnic_rb_tx_qm_reg_stride
        Regs.mqnic_max_txq
  rxq_res ←
      manager read (find Regs.mqnic_rb_rx_qm_type (some Regs.mqnic_rb_rx_qm_ver) 0 blocks)
        Regs.mqnic_rb_rx_qm_reg_offset Regs.mqnic_rb_rx_qm_reg_count Regs.mqnic_rb_rx_qm_reg_stride
        Regs.mqnic_max_rxq
  ok (eq_res, cq_res, txq_res, rxq_res)

-- "ensure all queues are disabled": of one kind, all windows.
unfoldable pub disable_all : (reg : ℕ) → Resource → Resource × List Write
unfolding write_all
disable_all reg r =
    write_all reg (bit_or Regs.mqnic_queue_cmd_set_enable 0) (range_from 0 (get_count r)) r

-- The interface that init leaves: no CQs and no queues, nothing received.
abbrev pub initialised :
    (ℕ → ℕ)
    → List RegBlock
    → (ctrl map_rb : RegBlock) → List ℕ
    → List Port
    → List Eq
    → Resource × Resource × Resource × Resource
    → Packets
    → List Write
    → Initialised
initialised read blocks ctrl map_rb windows ports eqs res packets writes = record {
  interface = record {
    port_up = false;
    eq_res = res.0;
    cq_res = res.1;
    txq_res = res.2;
    rxq_res = res.3;
    eqs = eqs;
    cqs = [];
    txqs = [];
    rxqs = [];
    rx = record { pkt_rx_queue = []; pkt_rx_sync = false };
  };
  settings = settings_of read blocks ctrl map_rb windows ports;
  packets = packets;
  writes = writes;
}

-- Interface.init of the interface of an index. `rounds` is the fuel of each walk over register
-- blocks.
unfoldable pub init_interface :
    (rounds : ℕ) (read : ℕ → ℕ) (csr_offset index : ℕ) → Packets → Result Initialised
unfolding managers disable_all
init_interface rounds read csr_offset index packets = do
  blocks ← enumerate_reg_blocks read rounds csr_offset []
  ctrl ← block (find Regs.mqnic_rb_if_ctrl_type (some Regs.mqnic_rb_if_ctrl_ver) 0 blocks)
  (eq_res, cq_res, txq_res, rxq_res) ← managers read blocks
  map_rb ←
      block (find Regs.mqnic_rb_rx_queue_map_type (some Regs.mqnic_rb_rx_queue_map_ver) 0 blocks)
  let port_count = read_dword read ctrl Regs.mqnic_rb_if_ctrl_reg_port_count
  (windows, map_writes) ← map_channels read map_rb (range_from 0 port_count) []
  let (eq_res', eq_off) = disable_all Regs.mqnic_eq_ctrl_status_reg eq_res
  let (cq_res', cq_off) = disable_all Regs.mqnic_cq_ctrl_status_reg cq_res
  let (txq_res', txq_off) = disable_all Regs.mqnic_queue_ctrl_status_reg txq_res
  let (rxq_res', rxq_off) = disable_all Regs.mqnic_queue_ctrl_status_reg rxq_res
  (ports, port_writes) ← make_ports rounds read blocks (range_from 0 port_count)
  (eqs, eq_res'', pool, eq_writes) ←
      make_eqs index (range_from 0 (get_count eq_res')) eq_res' packets.pool
  ok (
      initialised read blocks ctrl map_rb windows ports eqs (eq_res'', cq_res', txq_res', rxq_res')
        (record packets { pool = pool })
        (set_mtu ctrl (mtu_of read ctrl)
          ++ map_writes
          ++ (eq_off ++ cq_off ++ txq_off ++ rxq_off ++ (port_writes ++ eq_writes))))
