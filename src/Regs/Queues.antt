-- ===== src/Regs/Queues.antt =====
-- Constants of tb/mqnic_core_pcie_us_schedule/mqnic.py: the register windows of queues, their commands, and the sizes of entries.
use schedra_nic.Prelude.{ℕ}

abbrev pub mqnic_queue_enable_mask : ℕ
mqnic_queue_enable_mask = 0x00000001

abbrev pub mqnic_queue_active_mask : ℕ
mqnic_queue_active_mask = 0x00000008

abbrev pub mqnic_queue_ptr_mask : ℕ
mqnic_queue_ptr_mask = 0xffff

abbrev pub mqnic_queue_cmd_set_vf_id : ℕ
mqnic_queue_cmd_set_vf_id = 0x80010000

abbrev pub mqnic_queue_cmd_set_size : ℕ
mqnic_queue_cmd_set_size = 0x80020000

abbrev pub mqnic_queue_cmd_set_cqn : ℕ
mqnic_queue_cmd_set_cqn = 0xc0000000

abbrev pub mqnic_queue_cmd_set_prod_ptr : ℕ
mqnic_queue_cmd_set_prod_ptr = 0x80800000

abbrev pub mqnic_queue_cmd_set_cons_ptr : ℕ
mqnic_queue_cmd_set_cons_ptr = 0x80900000

abbrev pub mqnic_queue_cmd_set_enable : ℕ
mqnic_queue_cmd_set_enable = 0x40000100

abbrev pub mqnic_cq_base_addr_vf_reg : ℕ
mqnic_cq_base_addr_vf_reg = 0x00

abbrev pub mqnic_cq_ctrl_status_reg : ℕ
mqnic_cq_ctrl_status_reg = 0x08

abbrev pub mqnic_cq_ptr_reg : ℕ
mqnic_cq_ptr_reg = 0x0c

abbrev pub mqnic_cq_prod_ptr_reg : ℕ
mqnic_cq_prod_ptr_reg = 0x0c

abbrev pub mqnic_cq_cons_ptr_reg : ℕ
mqnic_cq_cons_ptr_reg = 0x0e

abbrev pub mqnic_cq_enable_mask : ℕ
mqnic_cq_enable_mask = 0x00010000

abbrev pub mqnic_cq_arm_mask : ℕ
mqnic_cq_arm_mask = 0x00020000

abbrev pub mqnic_cq_active_mask : ℕ
mqnic_cq_active_mask = 0x00080000

abbrev pub mqnic_cq_ptr_mask : ℕ
mqnic_cq_ptr_mask = 0xffff

abbrev pub mqnic_cq_cmd_set_vf_id : ℕ
mqnic_cq_cmd_set_vf_id = 0x80010000

abbrev pub mqnic_cq_cmd_set_size : ℕ
mqnic_cq_cmd_set_size = 0x80020000

abbrev pub mqnic_cq_cmd_set_eqn : ℕ
mqnic_cq_cmd_set_eqn = 0xc0000000

abbrev pub mqnic_cq_cmd_set_prod_ptr : ℕ
mqnic_cq_cmd_set_prod_ptr = 0x80800000

abbrev pub mqnic_cq_cmd_set_cons_ptr : ℕ
mqnic_cq_cmd_set_cons_ptr = 0x80900000

abbrev pub mqnic_cq_cmd_set_cons_ptr_arm : ℕ
mqnic_cq_cmd_set_cons_ptr_arm = 0x80910000

abbrev pub mqnic_cq_cmd_set_enable : ℕ
mqnic_cq_cmd_set_enable = 0x40000100

abbrev pub mqnic_cq_cmd_set_arm : ℕ
mqnic_cq_cmd_set_arm = 0x40000200

abbrev pub mqnic_eq_base_addr_vf_reg : ℕ
mqnic_eq_base_addr_vf_reg = 0x00

abbrev pub mqnic_eq_ctrl_status_reg : ℕ
mqnic_eq_ctrl_status_reg = 0x08

abbrev pub mqnic_eq_ptr_reg : ℕ
mqnic_eq_ptr_reg = 0x0c

abbrev pub mqnic_eq_prod_ptr_reg : ℕ
mqnic_eq_prod_ptr_reg = 0x0c

abbrev pub mqnic_eq_cons_ptr_reg : ℕ
mqnic_eq_cons_ptr_reg = 0x0e

abbrev pub mqnic_eq_enable_mask : ℕ
mqnic_eq_enable_mask = 0x00010000

abbrev pub mqnic_eq_arm_mask : ℕ
mqnic_eq_arm_mask = 0x00020000

abbrev pub mqnic_eq_active_mask : ℕ
mqnic_eq_active_mask = 0x00080000

abbrev pub mqnic_eq_ptr_mask : ℕ
mqnic_eq_ptr_mask = 0xffff

abbrev pub mqnic_eq_cmd_set_vf_id : ℕ
mqnic_eq_cmd_set_vf_id = 0x80010000

abbrev pub mqnic_eq_cmd_set_size : ℕ
mqnic_eq_cmd_set_size = 0x80020000

abbrev pub mqnic_eq_cmd_set_irqn : ℕ
mqnic_eq_cmd_set_irqn = 0xc0000000

abbrev pub mqnic_eq_cmd_set_prod_ptr : ℕ
mqnic_eq_cmd_set_prod_ptr = 0x80800000

abbrev pub mqnic_eq_cmd_set_cons_ptr : ℕ
mqnic_eq_cmd_set_cons_ptr = 0x80900000

abbrev pub mqnic_eq_cmd_set_cons_ptr_arm : ℕ
mqnic_eq_cmd_set_cons_ptr_arm = 0x80910000

abbrev pub mqnic_eq_cmd_set_enable : ℕ
mqnic_eq_cmd_set_enable = 0x40000100

abbrev pub mqnic_eq_cmd_set_arm : ℕ
mqnic_eq_cmd_set_arm = 0x40000200

abbrev pub mqnic_event_type_cpl : ℕ
mqnic_event_type_cpl = 0x0000

abbrev pub mqnic_desc_size : ℕ
mqnic_desc_size = 16

abbrev pub mqnic_cpl_size : ℕ
mqnic_cpl_size = 32

abbrev pub mqnic_event_size : ℕ
mqnic_event_size = 32
