-- ===== src/Regs/Interfaces.antt =====
-- Constants of tb/mqnic_core_pcie_us_schedule/mqnic.py: the limits of the driver and the register blocks of interfaces and their queues.
use schedra_nic.Prelude.{ℕ, ◌*◌, shl}

abbrev pub mqnic_max_eq : ℕ
mqnic_max_eq = 1

abbrev pub mqnic_max_txq : ℕ
mqnic_max_txq = 32

abbrev pub mqnic_max_rxq : ℕ
mqnic_max_rxq = 4

abbrev pub mqnic_max_cq : ℕ
mqnic_max_cq = mqnic_max_txq * 2

abbrev pub mqnic_rb_if_type : ℕ
mqnic_rb_if_type = 0x0000c000

abbrev pub mqnic_rb_if_ver : ℕ
mqnic_rb_if_ver = 0x00000100

abbrev pub mqnic_rb_if_reg_offset : ℕ
mqnic_rb_if_reg_offset = 0x0c

abbrev pub mqnic_rb_if_reg_count : ℕ
mqnic_rb_if_reg_count = 0x10

abbrev pub mqnic_rb_if_reg_stride : ℕ
mqnic_rb_if_reg_stride = 0x14

abbrev pub mqnic_rb_if_reg_csr_offset : ℕ
mqnic_rb_if_reg_csr_offset = 0x18

abbrev pub mqnic_rb_if_ctrl_type : ℕ
mqnic_rb_if_ctrl_type = 0x0000c001

abbrev pub mqnic_rb_if_ctrl_ver : ℕ
mqnic_rb_if_ctrl_ver = 0x00000400

abbrev pub mqnic_rb_if_ctrl_reg_features : ℕ
mqnic_rb_if_ctrl_reg_features = 0x0c

abbrev pub mqnic_rb_if_ctrl_reg_port_count : ℕ
mqnic_rb_if_ctrl_reg_port_count = 0x10

abbrev pub mqnic_rb_if_ctrl_reg_sched_count : ℕ
mqnic_rb_if_ctrl_reg_sched_count = 0x14

abbrev pub mqnic_rb_if_ctrl_reg_max_tx_mtu : ℕ
mqnic_rb_if_ctrl_reg_max_tx_mtu = 0x20

abbrev pub mqnic_rb_if_ctrl_reg_max_rx_mtu : ℕ
mqnic_rb_if_ctrl_reg_max_rx_mtu = 0x24

abbrev pub mqnic_rb_if_ctrl_reg_tx_mtu : ℕ
mqnic_rb_if_ctrl_reg_tx_mtu = 0x28

abbrev pub mqnic_rb_if_ctrl_reg_rx_mtu : ℕ
mqnic_rb_if_ctrl_reg_rx_mtu = 0x2c

abbrev pub mqnic_rb_if_ctrl_reg_tx_fifo_depth : ℕ
mqnic_rb_if_ctrl_reg_tx_fifo_depth = 0x20

abbrev pub mqnic_rb_if_ctrl_reg_rx_fifo_depth : ℕ
mqnic_rb_if_ctrl_reg_rx_fifo_depth = 0x24

abbrev pub mqnic_if_feature_rss : ℕ
mqnic_if_feature_rss = shl 1 0

abbrev pub mqnic_if_feature_ptp_ts : ℕ
mqnic_if_feature_ptp_ts = shl 1 4

abbrev pub mqnic_if_feature_tx_csum : ℕ
mqnic_if_feature_tx_csum = shl 1 8

abbrev pub mqnic_if_feature_rx_csum : ℕ
mqnic_if_feature_rx_csum = shl 1 9

abbrev pub mqnic_if_feature_rx_hash : ℕ
mqnic_if_feature_rx_hash = shl 1 10

abbrev pub mqnic_if_feature_lfc : ℕ
mqnic_if_feature_lfc = shl 1 11

abbrev pub mqnic_if_feature_pfc : ℕ
mqnic_if_feature_pfc = shl 1 12

abbrev pub mqnic_rb_rx_queue_map_type : ℕ
mqnic_rb_rx_queue_map_type = 0x0000c090

abbrev pub mqnic_rb_rx_queue_map_ver : ℕ
mqnic_rb_rx_queue_map_ver = 0x00000200

abbrev pub mqnic_rb_rx_queue_map_reg_cfg : ℕ
mqnic_rb_rx_queue_map_reg_cfg = 0x0c

abbrev pub mqnic_rb_rx_queue_map_ch_offset : ℕ
mqnic_rb_rx_queue_map_ch_offset = 0x10

abbrev pub mqnic_rb_rx_queue_map_ch_stride : ℕ
mqnic_rb_rx_queue_map_ch_stride = 0x10

abbrev pub mqnic_rb_rx_queue_map_ch_reg_offset : ℕ
mqnic_rb_rx_queue_map_ch_reg_offset = 0x00

abbrev pub mqnic_rb_rx_queue_map_ch_reg_rss_mask : ℕ
mqnic_rb_rx_queue_map_ch_reg_rss_mask = 0x04

abbrev pub mqnic_rb_rx_queue_map_ch_reg_app_mask : ℕ
mqnic_rb_rx_queue_map_ch_reg_app_mask = 0x08

abbrev pub mqnic_rb_eqm_type : ℕ
mqnic_rb_eqm_type = 0x0000c010

abbrev pub mqnic_rb_eqm_ver : ℕ
mqnic_rb_eqm_ver = 0x00000400

abbrev pub mqnic_rb_eqm_reg_offset : ℕ
mqnic_rb_eqm_reg_offset = 0x0c

abbrev pub mqnic_rb_eqm_reg_count : ℕ
mqnic_rb_eqm_reg_count = 0x10

abbrev pub mqnic_rb_eqm_reg_stride : ℕ
mqnic_rb_eqm_reg_stride = 0x14

abbrev pub mqnic_rb_cqm_type : ℕ
mqnic_rb_cqm_type = 0x0000c020

abbrev pub mqnic_rb_cqm_ver : ℕ
mqnic_rb_cqm_ver = 0x00000400

abbrev pub mqnic_rb_cqm_reg_offset : ℕ
mqnic_rb_cqm_reg_offset = 0x0c

abbrev pub mqnic_rb_cqm_reg_count : ℕ
mqnic_rb_cqm_reg_count = 0x10

abbrev pub mqnic_rb_cqm_reg_stride : ℕ
mqnic_rb_cqm_reg_stride = 0x14

abbrev pub mqnic_rb_tx_qm_type : ℕ
mqnic_rb_tx_qm_type = 0x0000c030

abbrev pub mqnic_rb_tx_qm_ver : ℕ
mqnic_rb_tx_qm_ver = 0x00000400

abbrev pub mqnic_rb_tx_qm_reg_offset : ℕ
mqnic_rb_tx_qm_reg_offset = 0x0c

abbrev pub mqnic_rb_tx_qm_reg_count : ℕ
mqnic_rb_tx_qm_reg_count = 0x10

abbrev pub mqnic_rb_tx_qm_reg_stride : ℕ
mqnic_rb_tx_qm_reg_stride = 0x14

abbrev pub mqnic_rb_rx_qm_type : ℕ
mqnic_rb_rx_qm_type = 0x0000c031

abbrev pub mqnic_rb_rx_qm_ver : ℕ
mqnic_rb_rx_qm_ver = 0x00000400

abbrev pub mqnic_rb_rx_qm_reg_offset : ℕ
mqnic_rb_rx_qm_reg_offset = 0x0c

abbrev pub mqnic_rb_rx_qm_reg_count : ℕ
mqnic_rb_rx_qm_reg_count = 0x10

abbrev pub mqnic_rb_rx_qm_reg_stride : ℕ
mqnic_rb_rx_qm_reg_stride = 0x14

abbrev pub mqnic_rb_port_type : ℕ
mqnic_rb_port_type = 0x0000c002

abbrev pub mqnic_rb_port_ver : ℕ
mqnic_rb_port_ver = 0x00000200
