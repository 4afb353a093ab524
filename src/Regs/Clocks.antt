-- ===== src/Regs/Clocks.antt =====
-- Constants of tb/mqnic_core_pcie_us_schedule/mqnic.py: the clock register blocks.
use schedra_nic.Prelude.{ℕ}

abbrev pub mqnic_rb_clk_info_type : ℕ
mqnic_rb_clk_info_type = 0x0000c008

abbrev pub mqnic_rb_clk_info_ver : ℕ
mqnic_rb_clk_info_ver = 0x00000100

abbrev pub mqnic_rb_clk_info_count : ℕ
mqnic_rb_clk_info_count = 0x0c

abbrev pub mqnic_rb_clk_info_ref_nom_per : ℕ
mqnic_rb_clk_info_ref_nom_per = 0x10

abbrev pub mqnic_rb_clk_info_clk_nom_per : ℕ
mqnic_rb_clk_info_clk_nom_per = 0x18

abbrev pub mqnic_rb_clk_info_clk_freq : ℕ
mqnic_rb_clk_info_clk_freq = 0x1c

abbrev pub mqnic_rb_clk_info_freq_base : ℕ
mqnic_rb_clk_info_freq_base = 0x20

abbrev pub mqnic_rb_phc_type : ℕ
mqnic_rb_phc_type = 0x0000c080

abbrev pub mqnic_rb_phc_ver : ℕ
mqnic_rb_phc_ver = 0x00000200

abbrev pub mqnic_rb_phc_reg_ctrl : ℕ
mqnic_rb_phc_reg_ctrl = 0x0c

abbrev pub mqnic_rb_phc_reg_cur_fns : ℕ
mqnic_rb_phc_reg_cur_fns = 0x10

abbrev pub mqnic_rb_phc_reg_cur_tod_ns : ℕ
mqnic_rb_phc_reg_cur_tod_ns = 0x14

abbrev pub mqnic_rb_phc_reg_cur_tod_sec_l : ℕ
mqnic_rb_phc_reg_cur_tod_sec_l = 0x18

abbrev pub mqnic_rb_phc_reg_cur_tod_sec_h : ℕ
mqnic_rb_phc_reg_cur_tod_sec_h = 0x1c

abbrev pub mqnic_rb_phc_reg_cur_rel_ns_l : ℕ
mqnic_rb_phc_reg_cur_rel_ns_l = 0x20

abbrev pub mqnic_rb_phc_reg_cur_rel_ns_h : ℕ
mqnic_rb_phc_reg_cur_rel_ns_h = 0x24

abbrev pub mqnic_rb_phc_reg_cur_ptm_ns_l : ℕ
mqnic_rb_phc_reg_cur_ptm_ns_l = 0x28

abbrev pub mqnic_rb_phc_reg_cur_ptm_ns_h : ℕ
mqnic_rb_phc_reg_cur_ptm_ns_h = 0x2c

abbrev pub mqnic_rb_phc_reg_snap_fns : ℕ
mqnic_rb_phc_reg_snap_fns = 0x30

abbrev pub mqnic_rb_phc_reg_snap_tod_ns : ℕ
mqnic_rb_phc_reg_snap_tod_ns = 0x34

abbrev pub mqnic_rb_phc_reg_snap_tod_sec_l : ℕ
mqnic_rb_phc_reg_snap_tod_sec_l = 0x38

abbrev pub mqnic_rb_phc_reg_snap_tod_sec_h : ℕ
mqnic_rb_phc_reg_snap_tod_sec_h = 0x3c

abbrev pub mqnic_rb_phc_reg_snap_rel_ns_l : ℕ
mqnic_rb_phc_reg_snap_rel_ns_l = 0x40

abbrev pub mqnic_rb_phc_reg_snap_rel_ns_h : ℕ
mqnic_rb_phc_reg_snap_rel_ns_h = 0x44

abbrev pub mqnic_rb_phc_reg_snap_ptm_ns_l : ℕ
mqnic_rb_phc_reg_snap_ptm_ns_l = 0x48

abbrev pub mqnic_rb_phc_reg_snap_ptm_ns_h : ℕ
mqnic_rb_phc_reg_snap_ptm_ns_h = 0x4c

abbrev pub mqnic_rb_phc_reg_offset_tod_ns : ℕ
mqnic_rb_phc_reg_offset_tod_ns = 0x50

abbrev pub mqnic_rb_phc_reg_set_tod_ns : ℕ
mqnic_rb_phc_reg_set_tod_ns = 0x54

abbrev pub mqnic_rb_phc_reg_set_tod_sec_l : ℕ
mqnic_rb_phc_reg_set_tod_sec_l = 0x58

abbrev pub mqnic_rb_phc_reg_set_tod_sec_h : ℕ
mqnic_rb_phc_reg_set_tod_sec_h = 0x5c

abbrev pub mqnic_rb_phc_reg_set_rel_ns_l : ℕ
mqnic_rb_phc_reg_set_rel_ns_l = 0x60

abbrev pub mqnic_rb_phc_reg_set_rel_ns_h : ℕ
mqnic_rb_phc_reg_set_rel_ns_h = 0x64

abbrev pub mqnic_rb_phc_reg_offset_rel_ns : ℕ
mqnic_rb_phc_reg_offset_rel_ns = 0x68

abbrev pub mqnic_rb_phc_reg_offset_fns : ℕ
mqnic_rb_phc_reg_offset_fns = 0x6c

abbrev pub mqnic_rb_phc_reg_nom_period_fns : ℕ
mqnic_rb_phc_reg_nom_period_fns = 0x70

abbrev pub mqnic_rb_phc_reg_nom_period_ns : ℕ
mqnic_rb_phc_reg_nom_period_ns = 0x74

abbrev pub mqnic_rb_phc_reg_period_fns : ℕ
mqnic_rb_phc_reg_period_fns = 0x78

abbrev pub mqnic_rb_phc_reg_period_ns : ℕ
mqnic_rb_phc_reg_period_ns = 0x7c

abbrev pub mqnic_rb_phc_perout_type : ℕ
mqnic_rb_phc_perout_type = 0x0000c081

abbrev pub mqnic_rb_phc_perout_ver : ℕ
mqnic_rb_phc_perout_ver = 0x00000100

abbrev pub mqnic_rb_phc_perout_reg_ctrl : ℕ
mqnic_rb_phc_perout_reg_ctrl = 0x0c

abbrev pub mqnic_rb_phc_perout_reg_start_fns : ℕ
mqnic_rb_phc_perout_reg_start_fns = 0x10

abbrev pub mqnic_rb_phc_perout_reg_start_ns : ℕ
mqnic_rb_phc_perout_reg_start_ns = 0x14

abbrev pub mqnic_rb_phc_perout_reg_start_sec_l : ℕ
mqnic_rb_phc_perout_reg_start_sec_l = 0x18

abbrev pub mqnic_rb_phc_perout_reg_start_sec_h : ℕ
mqnic_rb_phc_perout_reg_start_sec_h = 0x1c

abbrev pub mqnic_rb_phc_perout_reg_period_fns : ℕ
mqnic_rb_phc_perout_reg_period_fns = 0x20

abbrev pub mqnic_rb_phc_perout_reg_period_ns : ℕ
mqnic_rb_phc_perout_reg_period_ns = 0x24

abbrev pub mqnic_rb_phc_perout_reg_period_sec_l : ℕ
mqnic_rb_phc_perout_reg_period_sec_l = 0x28

abbrev pub mqnic_rb_phc_perout_reg_period_sec_h : ℕ
mqnic_rb_phc_perout_reg_period_sec_h = 0x2c

abbrev pub mqnic_rb_phc_perout_reg_width_fns : ℕ
mqnic_rb_phc_perout_reg_width_fns = 0x30

abbrev pub mqnic_rb_phc_perout_reg_width_ns : ℕ
mqnic_rb_phc_perout_reg_width_ns = 0x34

abbrev pub mqnic_rb_phc_perout_reg_width_sec_l : ℕ
mqnic_rb_phc_perout_reg_width_sec_l = 0x38

abbrev pub mqnic_rb_phc_perout_reg_width_sec_h : ℕ
mqnic_rb_phc_perout_reg_width_sec_h = 0x3c
