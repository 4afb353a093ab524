-- ===== src/Setup.antt =====
-- `Interface.init` of tb/mqnic_core_pcie_us_schedule/mqnic.py: what it reads from the device, the
-- resources, ports and EQs that it makes, and what it writes. The register file is a parameter,
-- `read`; the registers that are read do not change while it runs. A window is named by its offset
-- in the interface's window.
pub mod Init
pub mod Channels
pub mod Fresh
pub mod Supply
pub mod Built
pub mod Example
mod Tests
use schedra_nic.Prelude.{
  ℕ, ◌+◌, ◌*◌, ◌^◌, Bool, false, List, [], ◌∷◌, ◌++◌, Option, none, some, bit_and, bit_or, shr, min,
  range_from, get_elem?,
}
use schedra_nic.Device.{Result, ok, err, index_error, ◌>>=◌, Write, write_dword}
use schedra_nic.Regs
use schedra_nic.Drain.{truth}
use schedra_nic.RegBlocks.{RegBlock, enumerate_reg_blocks, find}
use schedra_nic.Resource
use schedra_nic.Resource.{Resource, get_count, get_window}
use schedra_nic.Packets.{Pool}
use schedra_nic.Eq
use schedra_nic.Eq.{Eq, open_eq}
use schedra_nic.Port.{Port, read_dword, block, init_port}

-- What init has read, and the ports that it has made.
pub record Settings : Type 0 where
  pub reg_blocks : List RegBlock
  pub if_ctrl_rb : RegBlock
  pub rx_queue_map_rb : RegBlock
  pub if_features : ℕ
  pub if_feature_rss : Bool
  pub if_feature_ptp_ts : Bool
  pub if_feature_tx_csum : Bool
  pub if_feature_rx_csum : Bool
  pub if_feature_rx_hash : Bool
  pub if_feature_lfc : Bool
  pub if_feature_pfc : Bool
  pub port_count : ℕ
  pub max_tx_mtu : ℕ
  pub max_rx_mtu : ℕ
  pub tx_fifo_depth : ℕ
  pub rx_fifo_depth : ℕ
  pub rx_queue_map_indir_table_size : ℕ
  pub rx_queue_map_indir_table : List ℕ
  pub ports : List Port

-- Interface.set_mtu
unfoldable pub set_mtu : (if_ctrl_rb : RegBlock) (mtu : ℕ) → List Write
set_mtu if_ctrl_rb mtu =
    write_dword if_ctrl_rb.offset Regs.mqnic_rb_if_ctrl_reg_tx_mtu mtu
    ∷ write_dword if_ctrl_rb.offset Regs.mqnic_rb_if_ctrl_reg_rx_mtu mtu
    ∷ []

-- The registers of a port's channel of the queue map.
abbrev pub channel : (port reg : ℕ) → ℕ
channel port reg =
    Regs.mqnic_rb_rx_queue_map_ch_offset + Regs.mqnic_rb_rx_queue_map_ch_stride * port + reg

unfoldable pub get_rx_queue_map_rss_mask : (ℕ → ℕ) → RegBlock → (port : ℕ) → ℕ
get_rx_queue_map_rss_mask read rb port =
    read_dword read rb (channel port Regs.mqnic_rb_rx_queue_map_ch_reg_rss_mask)

unfoldable pub set_rx_queue_map_rss_mask : RegBlock → (port val : ℕ) → List Write
set_rx_queue_map_rss_mask rb port val =
    write_dword rb.offset (channel port Regs.mqnic_rb_rx_queue_map_ch_reg_rss_mask) val ∷ []

unfoldable pub get_rx_queue_map_app_mask : (ℕ → ℕ) → RegBlock → (port : ℕ) → ℕ
get_rx_queue_map_app_mask read rb port =
    read_dword read rb (channel port Regs.mqnic_rb_rx_queue_map_ch_reg_app_mask)

unfoldable pub set_rx_queue_map_app_mask : RegBlock → (port val : ℕ) → List Write
set_rx_queue_map_app_mask rb port val =
    write_dword rb.offset (channel port Regs.mqnic_rb_rx_queue_map_ch_reg_app_mask) val ∷ []

-- `self.rx_queue_map_indir_table[port]`, the window of the port's table.
abbrev pub table : List ℕ → (port : ℕ) → Result ℕ
table windows port = elim (get_elem? windows port) [ none ↦ err index_error | some w ↦ ok w ]

unfoldable pub get_rx_queue_map_indir_table : (ℕ → ℕ) → List ℕ → (port index : ℕ) → Result ℕ
get_rx_queue_map_indir_table read windows port index = do
  w ← table windows port
  ok (read (w + index * 4))

unfoldable pub set_rx_queue_map_indir_table : List ℕ → (port index val : ℕ) → Result (List Write)
set_rx_queue_map_indir_table windows port index val = do
  w ← table windows port
  ok (write_dword w (index * 4) val ∷ [])

-- The loop over the ports' channels: their tables' windows, and all masks and first entries 0.
unfoldable pub map_channels : (ℕ → ℕ) → RegBlock → List ℕ → List ℕ → Result (List ℕ × List Write)
map_channels read rb [] windows = ok (windows, [])
map_channels read rb (k ∷ ks) windows = do
  let windows' =
      windows ++ read_dword read rb (channel k Regs.mqnic_rb_rx_queue_map_ch_reg_offset) ∷ []
  first ← set_rx_queue_map_indir_table windows' k 0 0
  (windows'', writes) ← map_channels read rb ks windows'
  ok (
    windows'',
    set_rx_queue_map_rss_mask rb k 0 ++ set_rx_queue_map_app_mask rb k 0 ++ first ++ writes,
  )

-- A queue manager's resource: its count, at most a limit, its window and its stride.
unfoldable pub manager :
    (ℕ → ℕ) → Option RegBlock → (offset_reg count_reg stride_reg limit : ℕ) → Result Resource
manager read found offset_reg count_reg stride_reg limit = do
  rb ← block found
  ok (
      Resource.new (min (read_dword read rb count_reg) limit) (read_dword read rb offset_reg)
        (read_dword read rb stride_reg))

-- `for k in range(res.get_count()): await res.get_window(k).write_dword(reg, command)`
unfoldable pub write_all : (reg command : ℕ) → List ℕ → Resource → Resource × List Write
write_all reg command [] r = (r, [])
write_all reg command (k ∷ ks) r =
    let (w, r') = get_window k r in
    let (r'', writes) = write_all reg command ks r' in (r'', write_dword w reg command ∷ writes)

unfoldable pub make_ports :
    (rounds : ℕ) → (ℕ → ℕ) → List RegBlock → List ℕ → Result (List Port × List Write)
make_ports rounds read blocks [] = ok ([], [])
make_ports rounds read blocks (k ∷ ks) = do
  (p, writes) ←
      init_port rounds read k (find Regs.mqnic_rb_port_type (some Regs.mqnic_rb_port_ver) k blocks)
  (ps, more) ← make_ports rounds read blocks ks
  ok (p ∷ ps, writes ++ more)

-- `eq = Eq(self); await eq.open(self.index, 1024); ...; await eq.arm()`, for each place.
unfoldable pub make_eqs :
    (irq : ℕ) → List ℕ → Resource → Pool → Result (List Eq × Resource × Pool × List Write)
make_eqs irq [] res pool = ok ([], res, pool, [])
make_eqs irq (k ∷ ks) res pool = do
  o ← open_eq irq 1024 res pool Eq.new
  (eqs, res', pool', more) ← make_eqs irq ks o.eq_res o.pool
  ok (o.eq ∷ eqs, res', pool', o.writes ++ Eq.arm o.eq ++ more)
