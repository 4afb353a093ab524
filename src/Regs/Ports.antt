-- ===== src/Regs/Ports.antt =====
-- Constants of tb/mqnic_core_pcie_us_schedule/mqnic.py: the register blocks of ports.
use schedra_nic.Prelude.{ℕ, shl}

abbrev pub mqnic_rb_port_reg_offset : ℕ
mqnic_rb_port_reg_offset = 0x0c

abbrev pub mqnic_rb_port_ctrl_type : ℕ
mqnic_rb_port_ctrl_type = 0x0000c003

abbrev pub mqnic_rb_port_ctrl_ver : ℕ
mqnic_rb_port_ctrl_ver = 0x00000300

abbrev pub mqnic_rb_port_ctrl_reg_features : ℕ
mqnic_rb_port_ctrl_reg_features = 0x0c

abbrev pub mqnic_rb_port_ctrl_reg_tx_ctrl : ℕ
mqnic_rb_port_ctrl_reg_tx_ctrl = 0x10

abbrev pub mqnic_rb_port_ctrl_reg_rx_ctrl : ℕ
mqnic_rb_port_ctrl_reg_rx_ctrl = 0x14

abbrev pub mqnic_rb_port_ctrl_reg_lfc_ctrl : ℕ
mqnic_rb_port_ctrl_reg_lfc_ctrl = 0x1c

abbrev pub mqnic_rb_port_ctrl_reg_pfc_ctrl0 : ℕ
mqnic_rb_port_ctrl_reg_pfc_ctrl0 = 0x20

abbrev pub mqnic_rb_port_ctrl_reg_pfc_ctrl1 : ℕ
mqnic_rb_port_ctrl_reg_pfc_ctrl1 = 0x24

abbrev pub mqnic_rb_port_ctrl_reg_pfc_ctrl2 : ℕ
mqnic_rb_port_ctrl_reg_pfc_ctrl2 = 0x28

abbrev pub mqnic_rb_port_ctrl_reg_pfc_ctrl3 : ℕ
mqnic_rb_port_ctrl_reg_pfc_ctrl3 = 0x2c

abbrev pub mqnic_rb_port_ctrl_reg_pfc_ctrl4 : ℕ
mqnic_rb_port_ctrl_reg_pfc_ctrl4 = 0x30

abbrev pub mqnic_rb_port_ctrl_reg_pfc_ctrl5 : ℕ
mqnic_rb_port_ctrl_reg_pfc_ctrl5 = 0x34

abbrev pub mqnic_rb_port_ctrl_reg_pfc_ctrl6 : ℕ
mqnic_rb_port_ctrl_reg_pfc_ctrl6 = 0x38

abbrev pub mqnic_rb_port_ctrl_reg_pfc_ctrl7 : ℕ
mqnic_rb_port_ctrl_reg_pfc_ctrl7 = 0x3c

abbrev pub mqnic_port_feature_lfc : ℕ
mqnic_port_feature_lfc = shl 1 0

abbrev pub mqnic_port_feature_pfc : ℕ
mqnic_port_feature_pfc = shl 1 1

abbrev pub mqnic_port_feature_int_mac_ctrl : ℕ
mqnic_port_feature_int_mac_ctrl = shl 1 2

abbrev pub mqnic_port_tx_ctrl_en : ℕ
mqnic_port_tx_ctrl_en = shl 1 0

abbrev pub mqnic_port_tx_ctrl_pause : ℕ
mqnic_port_tx_ctrl_pause = shl 1 8

abbrev pub mqnic_port_tx_ctrl_status : ℕ
mqnic_port_tx_ctrl_status = shl 1 16

abbrev pub mqnic_port_tx_ctrl_reset : ℕ
mqnic_port_tx_ctrl_reset = shl 1 17

abbrev pub mqnic_port_tx_ctrl_pause_req : ℕ
mqnic_port_tx_ctrl_pause_req = shl 1 24

abbrev pub mqnic_port_tx_ctrl_pause_ack : ℕ
mqnic_port_tx_ctrl_pause_ack = shl 1 25

abbrev pub mqnic_port_rx_ctrl_en : ℕ
mqnic_port_rx_ctrl_en = shl 1 0

abbrev pub mqnic_port_rx_ctrl_pause : ℕ
mqnic_port_rx_ctrl_pause = shl 1 8

abbrev pub mqnic_port_rx_ctrl_status : ℕ
mqnic_port_rx_ctrl_status = shl 1 16

abbrev pub mqnic_port_rx_ctrl_reset : ℕ
mqnic_port_rx_ctrl_reset = shl 1 17

abbrev pub mqnic_port_rx_ctrl_pause_req : ℕ
mqnic_port_rx_ctrl_pause_req = shl 1 24

abbrev pub mqnic_port_rx_ctrl_pause_ack : ℕ
mqnic_port_rx_ctrl_pause_ack = shl 1 25

abbrev pub mqnic_port_lfc_ctrl_tx_lfc_en : ℕ
mqnic_port_lfc_ctrl_tx_lfc_en = shl 1 24

abbrev pub mqnic_port_lfc_ctrl_rx_lfc_en : ℕ
mqnic_port_lfc_ctrl_rx_lfc_en = shl 1 25

abbrev pub mqnic_port_lfc_ctrl_tx_lfc_req : ℕ
mqnic_port_lfc_ctrl_tx_lfc_req = shl 1 28

abbrev pub mqnic_port_lfc_ctrl_rx_lfc_req : ℕ
mqnic_port_lfc_ctrl_rx_lfc_req = shl 1 29

abbrev pub mqnic_port_pfc_ctrl_tx_pfc_en : ℕ
mqnic_port_pfc_ctrl_tx_pfc_en = shl 1 24

abbrev pub mqnic_port_pfc_ctrl_rx_pfc_en : ℕ
mqnic_port_pfc_ctrl_rx_pfc_en = shl 1 25

abbrev pub mqnic_port_pfc_ctrl_tx_pfc_req : ℕ
mqnic_port_pfc_ctrl_tx_pfc_req = shl 1 28

abbrev pub mqnic_port_pfc_ctrl_rx_pfc_req : ℕ
mqnic_port_pfc_ctrl_rx_pfc_req = shl 1 29

abbrev pub mqnic_rb_sched_block_type : ℕ
mqnic_rb_sched_block_type = 0x0000c004

abbrev pub mqnic_rb_sched_block_ver : ℕ
mqnic_rb_sched_block_ver = 0x00000300
