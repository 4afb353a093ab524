-- ===== src/Regs/Schedulers.antt =====
-- Constants of tb/mqnic_core_pcie_us_schedule/mqnic.py: the register blocks of schedulers and of the application.
use schedra_nic.Prelude.{ℕ}

abbrev pub mqnic_rb_sched_block_reg_offset : ℕ
mqnic_rb_sched_block_reg_offset = 0x0c

abbrev pub mqnic_rb_sched_rr_type : ℕ
mqnic_rb_sched_rr_type = 0x0000c040

abbrev pub mqnic_rb_sched_rr_ver : ℕ
mqnic_rb_sched_rr_ver = 0x00000100

abbrev pub mqnic_rb_sched_rr_reg_offset : ℕ
mqnic_rb_sched_rr_reg_offset = 0x0c

abbrev pub mqnic_rb_sched_rr_reg_ch_count : ℕ
mqnic_rb_sched_rr_reg_ch_count = 0x10

abbrev pub mqnic_rb_sched_rr_reg_ch_stride : ℕ
mqnic_rb_sched_rr_reg_ch_stride = 0x14

abbrev pub mqnic_rb_sched_rr_reg_ctrl : ℕ
mqnic_rb_sched_rr_reg_ctrl = 0x18

abbrev pub mqnic_rb_sched_rr_reg_dest : ℕ
mqnic_rb_sched_rr_reg_dest = 0x1c

abbrev pub mqnic_rb_sched_ctrl_tdma_type : ℕ
mqnic_rb_sched_ctrl_tdma_type = 0x0000c050

abbrev pub mqnic_rb_sched_ctrl_tdma_ver : ℕ
mqnic_rb_sched_ctrl_tdma_ver = 0x00000100

abbrev pub mqnic_rb_sched_ctrl_tdma_reg_offset : ℕ
mqnic_rb_sched_ctrl_tdma_reg_offset = 0x0c

abbrev pub mqnic_rb_sched_ctrl_tdma_reg_ch_count : ℕ
mqnic_rb_sched_ctrl_tdma_reg_ch_count = 0x10

abbrev pub mqnic_rb_sched_ctrl_tdma_reg_ch_stride : ℕ
mqnic_rb_sched_ctrl_tdma_reg_ch_stride = 0x14

abbrev pub mqnic_rb_sched_ctrl_tdma_reg_ctrl : ℕ
mqnic_rb_sched_ctrl_tdma_reg_ctrl = 0x18

abbrev pub mqnic_rb_sched_ctrl_tdma_reg_ts_count : ℕ
mqnic_rb_sched_ctrl_tdma_reg_ts_count = 0x1c

abbrev pub mqnic_rb_tdma_sch_type : ℕ
mqnic_rb_tdma_sch_type = 0x0000c060

abbrev pub mqnic_rb_tdma_sch_ver : ℕ
mqnic_rb_tdma_sch_ver = 0x00000100

abbrev pub mqnic_rb_tdma_sch_reg_ts_count : ℕ
mqnic_rb_tdma_sch_reg_ts_count = 0x0c

abbrev pub mqnic_rb_tdma_sch_reg_ctrl : ℕ
mqnic_rb_tdma_sch_reg_ctrl = 0x10

abbrev pub mqnic_rb_tdma_sch_reg_status : ℕ
mqnic_rb_tdma_sch_reg_status = 0x14

abbrev pub mqnic_rb_tdma_sch_reg_sch_start_fns : ℕ
mqnic_rb_tdma_sch_reg_sch_start_fns = 0x20

abbrev pub mqnic_rb_tdma_sch_reg_sch_start_ns : ℕ
mqnic_rb_tdma_sch_reg_sch_start_ns = 0x24

abbrev pub mqnic_rb_tdma_sch_reg_sch_start_sec_l : ℕ
mqnic_rb_tdma_sch_reg_sch_start_sec_l = 0x28

abbrev pub mqnic_rb_tdma_sch_reg_sch_start_sec_h : ℕ
mqnic_rb_tdma_sch_reg_sch_start_sec_h = 0x2c

abbrev pub mqnic_rb_tdma_sch_reg_sch_period_fns : ℕ
mqnic_rb_tdma_sch_reg_sch_period_fns = 0x30

abbrev pub mqnic_rb_tdma_sch_reg_sch_period_ns : ℕ
mqnic_rb_tdma_sch_reg_sch_period_ns = 0x34

abbrev pub mqnic_rb_tdma_sch_reg_sch_period_sec_l : ℕ
mqnic_rb_tdma_sch_reg_sch_period_sec_l = 0x38

abbrev pub mqnic_rb_tdma_sch_reg_sch_period_sec_h : ℕ
mqnic_rb_tdma_sch_reg_sch_period_sec_h = 0x3c

abbrev pub mqnic_rb_tdma_sch_reg_ts_period_fns : ℕ
mqnic_rb_tdma_sch_reg_ts_period_fns = 0x40

abbrev pub mqnic_rb_tdma_sch_reg_ts_period_ns : ℕ
mqnic_rb_tdma_sch_reg_ts_period_ns = 0x44

abbrev pub mqnic_rb_tdma_sch_reg_ts_period_sec_l : ℕ
mqnic_rb_tdma_sch_reg_ts_period_sec_l = 0x48

abbrev pub mqnic_rb_tdma_sch_reg_ts_period_sec_h : ℕ
mqnic_rb_tdma_sch_reg_ts_period_sec_h = 0x4c

abbrev pub mqnic_rb_tdma_sch_reg_active_period_fns : ℕ
mqnic_rb_tdma_sch_reg_active_period_fns = 0x50

abbrev pub mqnic_rb_tdma_sch_reg_active_period_ns : ℕ
mqnic_rb_tdma_sch_reg_active_period_ns = 0x54

abbrev pub mqnic_rb_tdma_sch_reg_active_period_sec_l : ℕ
mqnic_rb_tdma_sch_reg_active_period_sec_l = 0x58

abbrev pub mqnic_rb_tdma_sch_reg_active_period_sec_h : ℕ
mqnic_rb_tdma_sch_reg_active_period_sec_h = 0x5c

abbrev pub mqnic_rb_app_info_type : ℕ
mqnic_rb_app_info_type = 0x0000c005

abbrev pub mqnic_rb_app_info_ver : ℕ
mqnic_rb_app_info_ver = 0x00000200

abbrev pub mqnic_rb_app_info_reg_id : ℕ
mqnic_rb_app_info_reg_id = 0x0c

abbrev pub mqnic_queue_base_addr_vf_reg : ℕ
mqnic_queue_base_addr_vf_reg = 0x00

abbrev pub mqnic_queue_ctrl_status_reg : ℕ
mqnic_queue_ctrl_status_reg = 0x08

abbrev pub mqnic_queue_size_cqn_reg : ℕ
mqnic_queue_size_cqn_reg = 0x0c

abbrev pub mqnic_queue_ptr_reg : ℕ
mqnic_queue_ptr_reg = 0x10

abbrev pub mqnic_queue_rank_wqe : ℕ
mqnic_queue_rank_wqe = 0x14

abbrev pub mqnic_queue_prod_ptr_reg : ℕ
mqnic_queue_prod_ptr_reg = 0x10

abbrev pub mqnic_queue_cons_ptr_reg : ℕ
mqnic_queue_cons_ptr_reg = 0x12
