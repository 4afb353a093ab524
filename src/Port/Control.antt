-- ===== src/Port/Control.antt =====
-- The control registers of a port against a device that keeps what is written.
use schedra_nic.Prelude.{
  ℕ, ◌+◌, ◌/◌, ◌%◌, ◌^◌, ◌<◌, ◌≡◌, ◌≢◌, refl, List, [], ◌∷◌, ◌==◌, if◌then◌else◌, arith, bit_and,
  and_bit, two_pow_pos, ap, ◌∙◌, some,
}
use schedra_nic.Device.{ok, Write}
use schedra_nic.Regs.{
  mqnic_rb_port_reg_offset, mqnic_rb_port_ctrl_type, mqnic_rb_port_ctrl_ver,
  mqnic_rb_port_ctrl_reg_features,
}
use schedra_nic.Drain.{truth}
use schedra_nic.Drain.Phase.{truth_digit}
use schedra_nic.RegBlocks.{RegBlock, enumerate_reg_blocks, find}
use schedra_nic.Port.{
  Port, get_tx_ctrl, get_rx_ctrl, get_lfc_ctrl, get_pfc_ctrl, set_tx_ctrl, set_rx_ctrl,
  set_lfc_ctrl, set_pfc_ctrl, clear_ctrl, clear_pfc, read_dword, found_port, init_port,
}

-- What a device that keeps the dwords written to it reads afterwards.
abbrev pub written : List Write → (ℕ → ℕ) → ℕ → ℕ
written [] read a = read a
written (w ∷ ws) read a = written ws (λ b. if b == w.window + w.reg then w.value else read b) a

module _ (port : Port) (read : ℕ → ℕ) where
  -- A priority's control that is set reads back, and no other control of the port changes.
  pub set_pfc_ctrl_lem :
      (index val : ℕ)
      → index < 8
      → (get_pfc_ctrl (written (set_pfc_ctrl index val port) read) index port ≡ val)
        × ((j : ℕ)
            → index ≢ j
            → get_pfc_ctrl (written (set_pfc_ctrl index val port) read) j port
              ≡ get_pfc_ctrl read j port)
        × (get_tx_ctrl (written (set_pfc_ctrl index val port) read) port ≡ get_tx_ctrl read port)
        × (get_rx_ctrl (written (set_pfc_ctrl index val port) read) port ≡ get_rx_ctrl read port)
        × (get_lfc_ctrl (written (set_pfc_ctrl index val port) read) port ≡ get_lfc_ctrl read port)
  unfolding set_pfc_ctrl get_pfc_ctrl get_tx_ctrl get_rx_ctrl get_lfc_ctrl
  set_pfc_ctrl_lem index val l =
      (ground arith, λ j ne. ground (arith, ne), ground arith, ground arith, ground arith)

  cleared :
      (get_tx_ctrl (written (clear_ctrl port) read) port ≡ 0)
      × (get_rx_ctrl (written (clear_ctrl port) read) port ≡ 0)
      × (get_lfc_ctrl (written (clear_ctrl port) read) port ≡ 0)
      × ((k : ℕ) → k < 8 → get_pfc_ctrl (written (clear_ctrl port) read) k port ≡ 0)
  unfolding clear_ctrl clear_pfc set_tx_ctrl set_rx_ctrl set_lfc_ctrl set_pfc_ctrl get_pfc_ctrl
      get_tx_ctrl get_rx_ctrl get_lfc_ctrl
  cleared = (ground arith, ground arith, ground arith, λ k l. ground (arith, l))

-- A bit of the features.
feature : (x k : ℕ) → truth (bit_and x (2 ^ k)) ≡ (x / 2 ^ k % 2 == 1)
feature x k = ap truth (and_bit k x) ∙ truth_digit (x / 2 ^ k) (2 ^ k) (two_pow_pos k)

-- A port whose block is there, whose chain of register blocks is walked and holds a control block:
-- init raises nothing; its features are what the control block's features register reads, its three
-- flags are the low three bits of that; and a device that keeps
-- what is written then reads 0 from the control registers of transmit, receive, link flow control
-- and all eight priorities.
pub init_port_lem :
    (rounds : ℕ) (read : ℕ → ℕ) (index : ℕ) (rb ctrl : RegBlock) (blocks : List RegBlock)
    → enumerate_reg_blocks read rounds (read_dword read rb mqnic_rb_port_reg_offset) [] ≡ ok blocks
    → find mqnic_rb_port_ctrl_type (some mqnic_rb_port_ctrl_ver) 0 blocks ≡ some ctrl
    → (port : Port) × (ws : List Write) × (init_port rounds read index (some rb) ≡ ok (port, ws))
      × (port.port_ctrl_rb ≡ ctrl)
      × (port.port_features ≡ read (ctrl.offset + mqnic_rb_port_ctrl_reg_features))
      × (port.port_feature_lfc ≡ (port.port_features / 1 % 2 == 1))
      × (port.port_feature_pfc ≡ (port.port_features / 2 % 2 == 1))
      × (port.port_feature_int_mac_ctrl ≡ (port.port_features / 4 % 2 == 1))
      × (get_tx_ctrl (written ws read) port ≡ 0)
      × (get_rx_ctrl (written ws read) port ≡ 0)
      × (get_lfc_ctrl (written ws read) port ≡ 0)
      × ((k : ℕ) → k < 8 → get_pfc_ctrl (written ws read) k port ≡ 0)
unfolding init_port
init_port_lem rounds read index rb ctrl blocks walk there =
    let features : ℕ = read_dword read ctrl mqnic_rb_port_ctrl_reg_features in
    let port : Port = found_port read index rb ctrl blocks in
    let (tx, rx, lfc, pfc) = cleared port read in
    (
      port,
      clear_ctrl port,
      rw (walk, there) refl,
      refl,
      refl,
      feature features 0,
      feature features 1,
      feature features 2,
      tx,
      rx,
      lfc,
      pfc,
    )
