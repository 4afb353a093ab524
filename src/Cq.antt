-- ===== src/Cq.antt =====
-- `class Cq` of tb/mqnic_core_pcie_us_schedule/mqnic.py, a completion queue.
pub mod Completion
pub mod Freed
use schedra_nic.Prelude.{
  ℕ, zero, suc, ◌+◌, ◌-◌, ◌*◌, ◌^◌, Bool, true, false, not, List, [], ◌∷◌, Option, none, some, ◌==◌,
  if◌then◌else◌, bit_and, bit_or, shr,
}
use schedra_nic.Device.{
  Result, ok, err, ◌>>=◌, ◌>>◌, guard, type_error, already_open, key_error, attribute_error,
  not_an_integer, Write, write_dword,
}
use schedra_nic.Regs.{
  mqnic_event_size, mqnic_cq_ctrl_status_reg, mqnic_cq_base_addr_vf_reg, mqnic_cq_cmd_set_enable,
  mqnic_cq_cmd_set_size, mqnic_cq_cmd_set_eqn, mqnic_cq_cmd_set_prod_ptr, mqnic_cq_cmd_set_cons_ptr,
  mqnic_cq_ptr_mask, mqnic_cq_cmd_set_arm,
}
use schedra_nic.Resource
use schedra_nic.Resource.{Resource, alloc, get_window}
use schedra_nic.Packets.{Pool, alloc_region}
use schedra_nic.Ring.{bit_length}
use schedra_nic.Struct.{Bytes, word}
use schedra_nic.Eq.{Eq, is_none, attach_cq, detach_cq}

-- The handler that a TX or an RX queue installs: `Txq.process_tx_cq` or `Rxq.process_rx_cq`.
pub data Handler : Type 0 where
  process_tx_cq process_rx_cq : Handler

-- `eq` and `src_ring` are places in the interface's lists. `hw_regs` is the base of the window.
pub record Cq : Type 0 where
  pub log_size : ℕ
  pub size : ℕ
  pub size_mask : ℕ
  pub stride : ℕ
  pub cqn : Option ℕ
  pub enabled : Bool
  pub buf_size : ℕ
  pub buf_dma : ℕ
  pub buf : Bytes
  pub eq : Option ℕ
  pub src_ring : Option ℕ
  pub handler : Option Handler
  pub prod_ptr : ℕ
  pub cons_ptr : ℕ
  pub hw_regs : Option ℕ

-- Cq.__init__
abbrev pub new : Cq
new = record {
  log_size = 0;
  size = 0;
  size_mask = 0;
  stride = 0;
  cqn = none;
  enabled = false;
  buf_size = 0;
  buf_dma = 0;
  buf = λ _. 0;
  eq = none;
  src_ring = none;
  handler = none;
  prod_ptr = 0;
  cons_ptr = 0;
  hw_regs = none;
}

-- The register writes of `Cq.open`, in order.
abbrev pub open_writes : (window buf_dma log_size eqn : ℕ) → List Write
open_writes window buf_dma log_size eqn =
    write_dword window mqnic_cq_ctrl_status_reg (bit_or mqnic_cq_cmd_set_enable 0)
    ∷ write_dword window mqnic_cq_base_addr_vf_reg (bit_and buf_dma 0xfffff000)
    ∷ write_dword window (mqnic_cq_base_addr_vf_reg + 4) (shr buf_dma 32)
    ∷ write_dword window mqnic_cq_ctrl_status_reg (bit_or mqnic_cq_cmd_set_size log_size)
    ∷ write_dword window mqnic_cq_ctrl_status_reg (bit_or mqnic_cq_cmd_set_eqn eqn)
    ∷ write_dword window mqnic_cq_ctrl_status_reg
        (bit_or mqnic_cq_cmd_set_prod_ptr (bit_and 0 mqnic_cq_ptr_mask))
    ∷ write_dword window mqnic_cq_ctrl_status_reg
        (bit_or mqnic_cq_cmd_set_cons_ptr (bit_and 0 mqnic_cq_ptr_mask))
    ∷ write_dword window mqnic_cq_ctrl_status_reg (bit_or mqnic_cq_cmd_set_enable 1)
    ∷ []

-- A call's new CQ and EQ, resource and pool, and its writes.
pub record Opened : Type 0 where
  pub cq : Cq
  pub eq : Eq
  pub cq_res : Resource
  pub pool : Pool
  pub writes : List Write

-- `MQNIC_CQ_CMD_SET_EQN | self.eq.eqn`: TypeError if the EQ has no number.
abbrev pub number : Option ℕ → Result ℕ
number none = err type_error
number (some n) = ok n

-- Cq.open, for the CQ at place `self`, with the EQ at place `eq_place`. The size is rounded down to a
-- power of two; a size of 0 is outside the model.
unfoldable pub open_cq : (self eq_place size : ℕ) → Resource → Pool → Eq → Cq → Result Opened
open_cq self eq_place size cq_res pool eq cq = do
  guard (is_none cq.hw_regs) already_open
  (cqn, cq_res') ← alloc cq_res
  guard (not (size == 0)) not_an_integer
  let log_size = bit_length size - 1
  let (buf_dma, pool') = alloc_region pool
  let (window, cq_res'') = get_window cqn cq_res'
  eqn ← number eq.eqn
  ok (record {
    cq = record {
      log_size = log_size;
      size = 2 ^ log_size;
      size_mask = 2 ^ log_size - 1;
      stride = mqnic_event_size;
      cqn = some cqn;
      enabled = true;
      buf_size = 2 ^ log_size * mqnic_event_size;
      buf_dma = buf_dma;
      buf = λ _. 0;
      eq = some eq_place;
      src_ring = cq.src_ring;
      handler = cq.handler;
      prod_ptr = 0;
      cons_ptr = 0;
      hw_regs = some window;
    };
    eq = attach_cq cqn self eq;
    cq_res = cq_res'';
    pool = pool';
    writes = open_writes window buf_dma log_size eqn;
  })

-- `self.eq.detach_cq(self)`, then `self.interface.cq_res.free(self.cqn)`: the CQ of an open window has
-- a number.
close_at : Option ℕ → Option ℕ → Cq → Eq → Resource → Result (Cq × Eq × Resource × List Write)
close_at none n cq eq cq_res = ok (cq, eq, cq_res, [])
close_at (some window) none cq eq cq_res = err key_error
close_at (some window) (some cqn) cq eq cq_res = do
  eq' ← detach_cq cqn eq
  ok (
    record cq { eq = none; enabled = false; hw_regs = none; cqn = none },
    eq',
    Resource.free cqn cq_res,
    write_dword window mqnic_cq_ctrl_status_reg (bit_or mqnic_cq_cmd_set_enable 0) ∷ [],
  )

-- Cq.close: nothing, if the CQ is not open. `eq` is the EQ that it is attached to.
unfoldable pub close : Cq → Eq → Resource → Result (Cq × Eq × Resource × List Write)
unfolding close_at
close cq eq cq_res = close_at cq.hw_regs cq.cqn cq eq cq_res

-- Cq.write_cons_ptr; a closed CQ has no registers (AttributeError).
unfoldable pub write_cons_ptr : Cq → Result (List Write)
write_cons_ptr cq = elim cq.hw_regs [
  | none ↦ err attribute_error
  | some window ↦ ok (
      write_dword window mqnic_cq_ctrl_status_reg
        (bit_or mqnic_cq_cmd_set_cons_ptr (bit_and cq.cons_ptr mqnic_cq_ptr_mask))
      ∷ [])
]

-- Cq.arm: nothing, if the CQ is not open.
unfoldable pub arm : Cq → List Write
arm cq = elim cq.hw_regs [
  | none ↦ []
  | some window ↦ write_dword window mqnic_cq_ctrl_status_reg (bit_or mqnic_cq_cmd_set_arm 1) ∷ []
]

-- `cpl_data[1] & ring.size_mask`: the slot that the completion at a pointer of the CQ names.
unfoldable pub completed_index : Cq → (size_mask cons_ptr : ℕ) → ℕ
completed_index cq size_mask cons_ptr =
    bit_and (word cq.buf (bit_and cons_ptr cq.size_mask * cq.stride + 2) 2) size_mask
