-- ===== src/Rxq/State.antt =====
-- The state of a receive queue, and the register writes of its open.
use schedra_nic.Prelude.{
  ℕ, ◌+◌, Bool, false, List, [], ◌∷◌, Option, none, some, bit_and, bit_or, shl, shr,
}
use schedra_nic.Device.{Result, ok, err, attribute_error, Write, write_dword}
use schedra_nic.Regs.{
  mqnic_queue_ctrl_status_reg, mqnic_queue_base_addr_vf_reg, mqnic_queue_cmd_set_enable,
  mqnic_queue_cmd_set_size, mqnic_queue_cmd_set_cqn, mqnic_queue_cmd_set_prod_ptr,
  mqnic_queue_cmd_set_cons_ptr, mqnic_queue_ptr_mask,
}
use schedra_nic.Resource.{Resource}
use schedra_nic.Packets.{Packets}
use schedra_nic.Struct.{Bytes}
use schedra_nic.Ring.{Slots}
use schedra_nic.Cq.{Cq}

-- `cq` is a place in the interface's list, `hw_regs` the base of the window, or None.
pub record Rxq : Type 0 where
  pub log_queue_size : ℕ
  pub log_desc_block_size : ℕ
  pub desc_block_size : ℕ
  pub size : ℕ
  pub size_mask : ℕ
  pub full_size : ℕ
  pub stride : ℕ
  pub index : Option ℕ
  pub enabled : Bool
  pub buf_size : ℕ
  pub buf_dma : ℕ
  pub buf : Bytes
  pub cq : Option ℕ
  pub rx_info : Slots
  pub prod_ptr : ℕ
  pub cons_ptr : ℕ
  pub packets : ℕ
  pub bytes : ℕ
  pub hw_regs : Option ℕ

-- Rxq.__init__; `rx_info` is first set by `open`.
abbrev pub new : Rxq
new = record {
  log_queue_size = 0;
  log_desc_block_size = 0;
  desc_block_size = 0;
  size = 0;
  size_mask = 0;
  full_size = 0;
  stride = 0;
  index = none;
  enabled = false;
  buf_size = 0;
  buf_dma = 0;
  buf = λ _. 0;
  cq = none;
  rx_info = [];
  prod_ptr = 0;
  cons_ptr = 0;
  packets = 0;
  bytes = 0;
  hw_regs = none;
}

-- The register writes of `Rxq.open`, in order.
abbrev pub open_writes : (window buf_dma log_desc_block_size log_queue_size cqn : ℕ) → List Write
open_writes window buf_dma log_desc_block_size log_queue_size cqn =
    write_dword window mqnic_queue_ctrl_status_reg (bit_or mqnic_queue_cmd_set_enable 0)
    ∷ write_dword window mqnic_queue_base_addr_vf_reg (bit_and buf_dma 0xfffff000)
    ∷ write_dword window (mqnic_queue_base_addr_vf_reg + 4) (shr buf_dma 32)
    ∷ write_dword window mqnic_queue_ctrl_status_reg
        (bit_or (bit_or mqnic_queue_cmd_set_size (shl log_desc_block_size 8)) log_queue_size)
    ∷ write_dword window mqnic_queue_ctrl_status_reg (bit_or mqnic_queue_cmd_set_cqn cqn)
    ∷ write_dword window mqnic_queue_ctrl_status_reg
        (bit_or mqnic_queue_cmd_set_prod_ptr (bit_and 0 mqnic_queue_ptr_mask))
    ∷ write_dword window mqnic_queue_ctrl_status_reg
        (bit_or mqnic_queue_cmd_set_cons_ptr (bit_and 0 mqnic_queue_ptr_mask))
    ∷ []

-- A call's new queue and CQ, resource and packet buffers, and its writes.
pub record Opened : Type 0 where
  pub rxq : Rxq
  pub cq : Cq
  pub rxq_res : Resource
  pub packets : Packets
  pub writes : List Write

-- `await self.hw_regs.write_dword(...)`; a closed queue has no registers (AttributeError).
abbrev pub window_of : Option ℕ → Result ℕ
window_of none = err attribute_error
window_of (some window) = ok window
