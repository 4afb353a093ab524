-- ===== src/Port.antt =====
-- `class Port` of tb/mqnic_core_pcie_us_schedule/mqnic.py, and the two schedulers, whose `init` only
-- finds their windows. The register file is a parameter, `read`: the dword at an offset of the
-- interface's window. A window is named by its offset there.
pub mod Control
mod Tests
use schedra_nic.Prelude.{
  ℕ, ◌+◌, ◌*◌, Bool, List, [], ◌∷◌, ◌++◌, Option, none, some, bit_and, range_from, map,
}
use schedra_nic.Device.{Result, ok, err, attribute_error, ◌>>=◌, Write, write_dword}
use schedra_nic.Regs.{
  mqnic_rb_port_reg_offset, mqnic_rb_port_ctrl_type, mqnic_rb_port_ctrl_ver,
  mqnic_rb_port_ctrl_reg_features, mqnic_rb_port_ctrl_reg_tx_ctrl, mqnic_rb_port_ctrl_reg_rx_ctrl,
  mqnic_rb_port_ctrl_reg_lfc_ctrl, mqnic_rb_port_ctrl_reg_pfc_ctrl0, mqnic_port_feature_lfc,
  mqnic_port_feature_pfc, mqnic_port_feature_int_mac_ctrl, mqnic_rb_sched_rr_reg_offset,
  mqnic_rb_sched_ctrl_tdma_reg_offset,
}
use schedra_nic.Drain.{truth}
use schedra_nic.RegBlocks.{RegBlock, enumerate_reg_blocks, find}

-- `rb.read_dword(reg)`, and the block that a call on None has not got (AttributeError).
abbrev pub read_dword : (ℕ → ℕ) → RegBlock → ℕ → ℕ
read_dword read rb reg = read (rb.offset + reg)

abbrev pub block : Option RegBlock → Result RegBlock
block none = err attribute_error
block (some rb) = ok rb

-- A port that has been initialised.
pub record Port : Type 0 where
  pub index : ℕ
  pub port_rb : RegBlock
  pub reg_blocks : List RegBlock
  pub port_ctrl_rb : RegBlock
  pub port_features : ℕ
  pub port_feature_lfc : Bool
  pub port_feature_pfc : Bool
  pub port_feature_int_mac_ctrl : Bool

-- The getters and setters of the control registers.
unfoldable pub get_tx_ctrl : (ℕ → ℕ) → Port → ℕ
get_tx_ctrl read port = read_dword read port.port_ctrl_rb mqnic_rb_port_ctrl_reg_tx_ctrl

unfoldable pub set_tx_ctrl : (val : ℕ) → Port → List Write
set_tx_ctrl val port = write_dword port.port_ctrl_rb.offset mqnic_rb_port_ctrl_reg_tx_ctrl val ∷ []

unfoldable pub get_rx_ctrl : (ℕ → ℕ) → Port → ℕ
get_rx_ctrl read port = read_dword read port.port_ctrl_rb mqnic_rb_port_ctrl_reg_rx_ctrl

unfoldable pub set_rx_ctrl : (val : ℕ) → Port → List Write
set_rx_ctrl val port = write_dword port.port_ctrl_rb.offset mqnic_rb_port_ctrl_reg_rx_ctrl val ∷ []

unfoldable pub get_lfc_ctrl : (ℕ → ℕ) → Port → ℕ
get_lfc_ctrl read port = read_dword read port.port_ctrl_rb mqnic_rb_port_ctrl_reg_lfc_ctrl

unfoldable pub set_lfc_ctrl : (val : ℕ) → Port → List Write
set_lfc_ctrl val port =
    write_dword port.port_ctrl_rb.offset mqnic_rb_port_ctrl_reg_lfc_ctrl val ∷ []

unfoldable pub get_pfc_ctrl : (ℕ → ℕ) → (index : ℕ) → Port → ℕ
get_pfc_ctrl read index port =
    read_dword read port.port_ctrl_rb (mqnic_rb_port_ctrl_reg_pfc_ctrl0 + 4 * index)

unfoldable pub set_pfc_ctrl : (index val : ℕ) → Port → List Write
set_pfc_ctrl index val port =
    write_dword port.port_ctrl_rb.offset (mqnic_rb_port_ctrl_reg_pfc_ctrl0 + 4 * index) val ∷ []

-- `for k in range(8): await self.set_pfc_ctrl(k, 0)`, for the given indices.
unfoldable pub clear_pfc : List ℕ → Port → List Write
unfolding set_pfc_ctrl
clear_pfc [] port = []
clear_pfc (k ∷ ks) port = set_pfc_ctrl k 0 port ++ clear_pfc ks port

-- The writes of `init`, in order.
unfoldable pub clear_ctrl : Port → List Write
unfolding set_tx_ctrl set_rx_ctrl set_lfc_ctrl clear_pfc set_pfc_ctrl
clear_ctrl port =
    set_tx_ctrl 0 port
    ++ set_rx_ctrl 0 port
    ++ set_lfc_ctrl 0 port
    ++ clear_pfc (range_from 0 8) port

-- The port, once its control block is found.
abbrev pub found_port : (ℕ → ℕ) → (index : ℕ) → (port_rb ctrl : RegBlock) → List RegBlock → Port
found_port read index port_rb ctrl blocks =
    let features = read_dword read ctrl mqnic_rb_port_ctrl_reg_features in
    record {
      index = index;
      port_rb = port_rb;
      reg_blocks = blocks;
      port_ctrl_rb = ctrl;
      port_features = features;
      port_feature_lfc = truth (bit_and features mqnic_port_feature_lfc);
      port_feature_pfc = truth (bit_and features mqnic_port_feature_pfc);
      port_feature_int_mac_ctrl = truth (bit_and features mqnic_port_feature_int_mac_ctrl);
    }

-- Port.init, given the block that the interface has found for the port. `rounds` is the fuel of the
-- walk over the register blocks.
unfoldable pub init_port :
    (rounds : ℕ) (read : ℕ → ℕ) (index : ℕ) → Option RegBlock → Result (Port × List Write)
init_port rounds read index rb = do
  port_rb ← block rb
  blocks ← enumerate_reg_blocks read rounds (read_dword read port_rb mqnic_rb_port_reg_offset) []
  ctrl ← block (find mqnic_rb_port_ctrl_type (some mqnic_rb_port_ctrl_ver) 0 blocks)
  let port = found_port read index port_rb ctrl blocks
  ok (port, clear_ctrl port)

-- BaseScheduler, with the window that `init` finds, if it has run.
pub record Scheduler : Type 0 where
  pub index : ℕ
  pub rb : RegBlock
  pub hw_regs : Option ℕ

-- SchedulerRoundRobin.init and SchedulerControlTdma.init
unfoldable pub init_round_robin : (ℕ → ℕ) → Scheduler → Scheduler
init_round_robin read s = record s {
  hw_regs = some (read_dword read s.rb mqnic_rb_sched_rr_reg_offset);
}

unfoldable pub init_tdma : (ℕ → ℕ) → Scheduler → Scheduler
init_tdma read s = record s {
  hw_regs = some (read_dword read s.rb mqnic_rb_sched_ctrl_tdma_reg_offset);
}

-- SchedulerBlock. Its `init` does nothing but log: the enumeration of its schedulers is commented
-- out.
pub record SchedulerBlock : Type 0 where
  pub index : ℕ
  pub block_rb : RegBlock
  pub reg_blocks : List RegBlock
  pub sched_count : Option ℕ
  pub schedulers : List Scheduler

abbrev pub new_block : (index : ℕ) → RegBlock → SchedulerBlock
new_block index rb = record {
  index = index;
  block_rb = rb;
  reg_blocks = [];
  sched_count = none;
  schedulers = [];
}

unfoldable pub init_block : SchedulerBlock → SchedulerBlock
init_block b = b
