-- ===== src/Regs/Boards.antt =====
-- Constants of tb/mqnic_core_pcie_us_schedule/mqnic.py: the identification, board, statistics and interrupt register blocks.
use schedra_nic.Prelude.{ℕ}

abbrev pub mqnic_rb_reg_type : ℕ
mqnic_rb_reg_type = 0x00

abbrev pub mqnic_rb_reg_ver : ℕ
mqnic_rb_reg_ver = 0x04

abbrev pub mqnic_rb_reg_next_ptr : ℕ
mqnic_rb_reg_next_ptr = 0x08

abbrev pub mqnic_rb_fw_id_type : ℕ
mqnic_rb_fw_id_type = 0xffffffff

abbrev pub mqnic_rb_fw_id_ver : ℕ
mqnic_rb_fw_id_ver = 0x00000100

abbrev pub mqnic_rb_fw_id_reg_fpga_id : ℕ
mqnic_rb_fw_id_reg_fpga_id = 0x0c

abbrev pub mqnic_rb_fw_id_reg_fw_id : ℕ
mqnic_rb_fw_id_reg_fw_id = 0x10

abbrev pub mqnic_rb_fw_id_reg_fw_ver : ℕ
mqnic_rb_fw_id_reg_fw_ver = 0x14

abbrev pub mqnic_rb_fw_id_reg_board_id : ℕ
mqnic_rb_fw_id_reg_board_id = 0x18

abbrev pub mqnic_rb_fw_id_reg_board_ver : ℕ
mqnic_rb_fw_id_reg_board_ver = 0x1c

abbrev pub mqnic_rb_fw_id_reg_build_date : ℕ
mqnic_rb_fw_id_reg_build_date = 0x20

abbrev pub mqnic_rb_fw_id_reg_git_hash : ℕ
mqnic_rb_fw_id_reg_git_hash = 0x24

abbrev pub mqnic_rb_fw_id_reg_rel_info : ℕ
mqnic_rb_fw_id_reg_rel_info = 0x28

abbrev pub mqnic_rb_gpio_type : ℕ
mqnic_rb_gpio_type = 0x0000c100

abbrev pub mqnic_rb_gpio_ver : ℕ
mqnic_rb_gpio_ver = 0x00000100

abbrev pub mqnic_rb_gpio_reg_gpio_in : ℕ
mqnic_rb_gpio_reg_gpio_in = 0x0c

abbrev pub mqnic_rb_gpio_reg_gpio_out : ℕ
mqnic_rb_gpio_reg_gpio_out = 0x10

abbrev pub mqnic_rb_i2c_type : ℕ
mqnic_rb_i2c_type = 0x0000c110

abbrev pub mqnic_rb_i2c_ver : ℕ
mqnic_rb_i2c_ver = 0x00000100

abbrev pub mqnic_rb_i2c_reg_ctrl : ℕ
mqnic_rb_i2c_reg_ctrl = 0x0c

abbrev pub mqnic_rb_spi_flash_type : ℕ
mqnic_rb_spi_flash_type = 0x0000c120

abbrev pub mqnic_rb_spi_flash_ver : ℕ
mqnic_rb_spi_flash_ver = 0x00000100

abbrev pub mqnic_rb_spi_flash_reg_format : ℕ
mqnic_rb_spi_flash_reg_format = 0x0c

abbrev pub mqnic_rb_spi_flash_reg_ctrl_0 : ℕ
mqnic_rb_spi_flash_reg_ctrl_0 = 0x10

abbrev pub mqnic_rb_spi_flash_reg_ctrl_1 : ℕ
mqnic_rb_spi_flash_reg_ctrl_1 = 0x14

abbrev pub mqnic_rb_bpi_flash_type : ℕ
mqnic_rb_bpi_flash_type = 0x0000c121

abbrev pub mqnic_rb_bpi_flash_ver : ℕ
mqnic_rb_bpi_flash_ver = 0x00000100

abbrev pub mqnic_rb_bpi_flash_reg_format : ℕ
mqnic_rb_bpi_flash_reg_format = 0x0c

abbrev pub mqnic_rb_bpi_flash_reg_addr : ℕ
mqnic_rb_bpi_flash_reg_addr = 0x10

abbrev pub mqnic_rb_bpi_flash_reg_data : ℕ
mqnic_rb_bpi_flash_reg_data = 0x14

abbrev pub mqnic_rb_bpi_flash_reg_ctrl : ℕ
mqnic_rb_bpi_flash_reg_ctrl = 0x18

abbrev pub mqnic_rb_alveo_bmc_type : ℕ
mqnic_rb_alveo_bmc_type = 0x0000c140

abbrev pub mqnic_rb_alveo_bmc_ver : ℕ
mqnic_rb_alveo_bmc_ver = 0x00000100

abbrev pub mqnic_rb_alveo_bmc_reg_addr : ℕ
mqnic_rb_alveo_bmc_reg_addr = 0x0c

abbrev pub mqnic_rb_alveo_bmc_reg_data : ℕ
mqnic_rb_alveo_bmc_reg_data = 0x10

abbrev pub mqnic_rb_gecko_bmc_type : ℕ
mqnic_rb_gecko_bmc_type = 0x0000c141

abbrev pub mqnic_rb_gecko_bmc_ver : ℕ
mqnic_rb_gecko_bmc_ver = 0x00000100

abbrev pub mqnic_rb_gecko_bmc_reg_status : ℕ
mqnic_rb_gecko_bmc_reg_status = 0x0c

abbrev pub mqnic_rb_gecko_bmc_reg_data : ℕ
mqnic_rb_gecko_bmc_reg_data = 0x10

abbrev pub mqnic_rb_gecko_bmc_reg_cmd : ℕ
mqnic_rb_gecko_bmc_reg_cmd = 0x14

abbrev pub mqnic_rb_stats_type : ℕ
mqnic_rb_stats_type = 0x0000c006

abbrev pub mqnic_rb_stats_ver : ℕ
mqnic_rb_stats_ver = 0x00000100

abbrev pub mqnic_rb_stats_reg_offset : ℕ
mqnic_rb_stats_reg_offset = 0x0c

abbrev pub mqnic_rb_stats_reg_count : ℕ
mqnic_rb_stats_reg_count = 0x10

abbrev pub mqnic_rb_stats_reg_stride : ℕ
mqnic_rb_stats_reg_stride = 0x14

abbrev pub mqnic_rb_stats_reg_flags : ℕ
mqnic_rb_stats_reg_flags = 0x18

abbrev pub mqnic_rb_irq_type : ℕ
mqnic_rb_irq_type = 0x0000c007

abbrev pub mqnic_rb_irq_ver : ℕ
mqnic_rb_irq_ver = 0x00000100
