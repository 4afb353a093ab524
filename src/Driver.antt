-- ===== src/Driver.antt =====
-- `Driver.init_common` of tb/mqnic_core_pcie_us_schedule/mqnic.py, with `init_pcie_dev` and
-- `init_axi_dev`, which call it. The register file of the control window is a parameter, `read`.
pub mod Ready
pub mod Handler
mod Tests
use schedra_nic.Prelude.{
  ℕ, ◌+◌, ◌*◌, Bool, true, false, not, List, [], ◌∷◌, ◌++◌, Option, none, some, map, range_from,
  length,
}
use schedra_nic.Device.{Result, ok, err, assertion_error, guard, ◌>>=◌, ◌>>◌}
use schedra_nic.Regs
use schedra_nic.RegBlocks.{RegBlock, enumerate_reg_blocks, find}
use schedra_nic.Packets.{Pool, Packets}
use schedra_nic.Port.{read_dword, block}
use schedra_nic.Setup.Init.{Initialised, init_interface}
use schedra_nic.Interrupts.{Interrupt, msi_list}
use schedra_nic.Interrupts

-- What the driver reads of the device's identity.
pub record Identity : Type 0 where
  pub fpga_id : ℕ
  pub fw_id : ℕ
  pub fw_ver : ℕ
  pub board_id : ℕ
  pub board_ver : ℕ
  pub build_date : ℕ
  pub git_hash : ℕ
  pub rel_info : ℕ
  pub app_id : Option ℕ

-- Where the interfaces stand.
pub record Places : Type 0 where
  pub if_offset : ℕ
  pub if_count : ℕ
  pub if_stride : ℕ
  pub if_csr_offset : ℕ

-- A driver that is ready. `if_count` is 1 where there is no interface block.
pub record Driver : Type 0 where
  pub initialized : Bool
  pub reg_blocks : List RegBlock
  pub identity : Identity
  pub phc_rb : Option RegBlock
  pub if_rb : Option RegBlock
  pub places : Option Places
  pub interfaces : List Initialised
  pub irq_list : List Interrupt
  pub packets : Packets

-- `if rb: self.app_id = await rb.read_dword(...)`
abbrev pub read_app_id : (ℕ → ℕ) → Option RegBlock → Option ℕ
read_app_id read none = none
read_app_id read (some rb) = some (read_dword read rb Regs.mqnic_rb_app_info_reg_id)

abbrev pub identity_of : (ℕ → ℕ) → (fw : RegBlock) → List RegBlock → Identity
identity_of read fw blocks = record {
  fpga_id = read_dword read fw Regs.mqnic_rb_fw_id_reg_fpga_id;
  fw_id = read_dword read fw Regs.mqnic_rb_fw_id_reg_fw_id;
  fw_ver = read_dword read fw Regs.mqnic_rb_fw_id_reg_fw_ver;
  board_id = read_dword read fw Regs.mqnic_rb_fw_id_reg_board_id;
  board_ver = read_dword read fw Regs.mqnic_rb_fw_id_reg_board_ver;
  build_date = read_dword read fw Regs.mqnic_rb_fw_id_reg_build_date;
  git_hash = read_dword read fw Regs.mqnic_rb_fw_id_reg_git_hash;
  rel_info = read_dword read fw Regs.mqnic_rb_fw_id_reg_rel_info;
  app_id =
      read_app_id read
        (find Regs.mqnic_rb_app_info_type (some Regs.mqnic_rb_app_info_ver) 0 blocks);
}

abbrev pub places_at : (ℕ → ℕ) → RegBlock → Places
places_at read rb = record {
  if_offset = read_dword read rb Regs.mqnic_rb_if_reg_offset;
  if_count = read_dword read rb Regs.mqnic_rb_if_reg_count;
  if_stride = read_dword read rb Regs.mqnic_rb_if_reg_stride;
  if_csr_offset = read_dword read rb Regs.mqnic_rb_if_reg_csr_offset;
}

-- The window of interface k, and its registers.
abbrev pub interface_window : (ℕ → ℕ) → Places → (k o : ℕ) → ℕ
interface_window read places k o = read (places.if_offset + k * places.if_stride + o)

-- `for k in range(self.if_count)`: each interface takes its memory from the same pool.
unfoldable pub init_interfaces :
    (rounds : ℕ) (read : ℕ → ℕ) → Places → List ℕ → Packets → Result (List Initialised × Packets)
init_interfaces rounds read places [] packets = ok ([], packets)
init_interfaces rounds read places (k ∷ ks) packets = do
  i ← init_interface rounds (interface_window read places k) places.if_csr_offset k packets
  (is, packets') ← init_interfaces rounds read places ks i.packets
  ok (i ∷ is, packets')

-- `if self.if_rb: ... else: ...`
unfoldable pub find_interfaces :
    (rounds : ℕ) (read : ℕ → ℕ)
    → Option RegBlock
    → Packets
    → Result (Option Places × List Initialised × Packets)
find_interfaces rounds read none packets = ok (none, [], packets)
find_interfaces rounds read (some rb) packets = do
  (is, packets') ←
      init_interfaces rounds read (places_at read rb) (range_from 0 (places_at read rb).if_count)
        packets
  ok (some (places_at read rb), is, packets')

abbrev pub ready :
    (ℕ → ℕ)
    → (blocks : List RegBlock) (fw : RegBlock) → List Interrupt
    → Option Places × List Initialised × Packets
    → Driver
ready read blocks fw irq_list found = record {
  initialized = true;
  reg_blocks = blocks;
  identity = identity_of read fw blocks;
  phc_rb = find Regs.mqnic_rb_phc_type (some Regs.mqnic_rb_phc_ver) 0 blocks;
  if_rb = find Regs.mqnic_rb_if_type (some Regs.mqnic_rb_if_ver) 0 blocks;
  places = found.0;
  interfaces = found.1;
  irq_list = irq_list;
  packets = found.2;
}

-- Driver.init_common, with the interrupts that its caller has made.
unfoldable pub init_common : (rounds : ℕ) (read : ℕ → ℕ) → List Interrupt → Packets → Result Driver
init_common rounds read irq_list packets = do
  blocks ← enumerate_reg_blocks read rounds 0 []
  fw ← block (find Regs.mqnic_rb_fw_id_type (some Regs.mqnic_rb_fw_id_ver) 0 blocks)
  found ←
      find_interfaces rounds read (find Regs.mqnic_rb_if_type (some Regs.mqnic_rb_if_ver) 0 blocks)
        packets
  ok (ready read blocks fw irq_list found)

-- The driver's packets before it has any.
abbrev pub no_packets : Pool → Packets
no_packets pool = record { pool = pool; allocated_packets = []; free_packets = [] }

-- Driver.init_pcie_dev: an interrupt for each of 32 vectors.
unfoldable pub init_pcie_dev :
    (initialized : Bool) (rounds : ℕ) (read : ℕ → ℕ) → Pool → Result Driver
init_pcie_dev initialized rounds read pool = do
  guard (not initialized) assertion_error
  init_common rounds read msi_list (no_packets pool)

-- "set up edge-triggered interrupts"; a signal of no lines is false.
abbrev pub axi_list : (lines : Option ℕ) → List Interrupt
axi_list none = []
axi_list (some count) = map (λ index. Interrupts.new index true) (range_from 0 count)

-- Driver.init_axi_dev: an interrupt for each line of the signal, if there is one.
unfoldable pub init_axi_dev :
    (initialized : Bool) (rounds : ℕ) (read : ℕ → ℕ) → Pool → (lines : Option ℕ) → Result Driver
init_axi_dev initialized rounds read pool lines = do
  guard (not initialized) assertion_error
  init_common rounds read (axi_list lines) (no_packets pool)
