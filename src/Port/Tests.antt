-- ===== src/Port/Tests.antt =====
-- A port whose control block stands at 64, after the port's own block at 0.
use schedra_nic.Prelude.{ℕ, ◌+◌, ◌/◌, ◌%◌, ◌<◌, ◌≡◌, refl, List, [], ◌∷◌, ◌==◌, if◌then◌else◌, some}
use schedra_nic.Device.{ok, Write}
use schedra_nic.Regs.{mqnic_rb_port_ctrl_reg_features}
use schedra_nic.RegBlocks.{RegBlock, block_at, enumerate_reg_blocks, find, matches}
use schedra_nic.Port.{Port, init_port, get_tx_ctrl, get_rx_ctrl, get_lfc_ctrl, get_pfc_ctrl}
use schedra_nic.Port.Control.{written, init_port_lem}

-- The control block has type 0xC003, version 0x300 and the features 5.
abbrev registers : ℕ → ℕ
registers o =
    if o == 12
    then 64
    else if o == 64
    then 0xc003
    else if o == 68
    then 0x300
    else if o == 76
    then 5
    else 0

abbrev port_rb : RegBlock
port_rb = record { offset = 0; rb_type = 0; version = 0 }

abbrev ctrl_rb : RegBlock
ctrl_rb = record { offset = 64; rb_type = 0xc003; version = 0x300 }

walk_run : enumerate_reg_blocks registers 2 64 [] ≡ ok (ctrl_rb ∷ [])
unfolding enumerate_reg_blocks block_at
walk_run = refl

find_run : find 0xc003 (some 0x300) 0 (ctrl_rb ∷ []) ≡ some ctrl_rb
unfolding find matches
find_run = refl

init_port_lem_example :
    (p : Port) × (ws : List Write) × (init_port 2 registers 0 (some port_rb) ≡ ok (p, ws))
    × (p.port_ctrl_rb ≡ ctrl_rb)
    × (p.port_features ≡ registers (64 + mqnic_rb_port_ctrl_reg_features))
    × (p.port_feature_lfc ≡ (p.port_features / 1 % 2 == 1))
    × (p.port_feature_pfc ≡ (p.port_features / 2 % 2 == 1))
    × (p.port_feature_int_mac_ctrl ≡ (p.port_features / 4 % 2 == 1))
    × (get_tx_ctrl (written ws registers) p ≡ 0)
    × (get_rx_ctrl (written ws registers) p ≡ 0)
    × (get_lfc_ctrl (written ws registers) p ≡ 0)
    × ((k : ℕ) → k < 8 → get_pfc_ctrl (written ws registers) k p ≡ 0)
init_port_lem_example = init_port_lem 2 registers 0 port_rb ctrl_rb (ctrl_rb ∷ []) walk_run find_run
