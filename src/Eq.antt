-- ===== src/Eq.antt =====
-- `class Eq` of tb/mqnic_core_pcie_us_schedule/mqnic.py, an event queue; `process_eq`
-- works on the queues of the whole interface, and stands there.
pub mod Table
mod Tests
use schedra_nic.Prelude.{
  ℕ, ◌+◌, ◌-◌, ◌*◌, ◌^◌, Bool, true, false, not, List, [], ◌∷◌, Option, none, some, ◌==◌,
  if◌then◌else◌, bit_and, bit_or, shr,
}
use schedra_nic.Device.{
  Result, ok, err, ◌>>=◌, ◌>>◌, guard, already_open, key_error, attribute_error, not_an_integer,
  Write, write_dword,
}
use schedra_nic.Regs.{
  mqnic_event_size, mqnic_eq_ctrl_status_reg, mqnic_eq_base_addr_vf_reg, mqnic_eq_cmd_set_enable,
  mqnic_eq_cmd_set_size, mqnic_eq_cmd_set_irqn, mqnic_eq_cmd_set_prod_ptr,
  mqnic_eq_cmd_set_cons_ptr, mqnic_eq_ptr_mask, mqnic_eq_cmd_set_arm,
}
use schedra_nic.Resource
use schedra_nic.Resource.{Resource, alloc, get_window}
use schedra_nic.Packets.{Pool, alloc_region}
use schedra_nic.Ring.{bit_length}
use schedra_nic.Struct.{Bytes}

-- `cq_table` is the dict from the number of a CQ to the CQ, here its place in the interface's list.
-- `hw_regs` is the base of the window, or None.
pub record Eq : Type 0 where
  pub log_size : ℕ
  pub size : ℕ
  pub size_mask : ℕ
  pub stride : ℕ
  pub eqn : Option ℕ
  pub enabled : Bool
  pub buf_size : ℕ
  pub buf_dma : ℕ
  pub buf : Bytes
  pub irq : Option ℕ
  pub cq_table : List (ℕ × ℕ)
  pub prod_ptr : ℕ
  pub cons_ptr : ℕ
  pub hw_regs : Option ℕ

-- Eq.__init__
abbrev pub new : Eq
new = record {
  log_size = 0;
  size = 0;
  size_mask = 0;
  stride = 0;
  eqn = none;
  enabled = false;
  buf_size = 0;
  buf_dma = 0;
  buf = λ _. 0;
  irq = none;
  cq_table = [];
  prod_ptr = 0;
  cons_ptr = 0;
  hw_regs = none;
}

abbrev pub is_none {ℓ} : {A : Type ℓ} → Option A → Bool
is_none none = true
is_none (some a) = false

-- The register writes of `Eq.open`, in order.
abbrev pub open_writes : (window buf_dma log_size irq : ℕ) → List Write
open_writes window buf_dma log_size irq =
    write_dword window mqnic_eq_ctrl_status_reg (bit_or mqnic_eq_cmd_set_enable 0)
    ∷ write_dword window mqnic_eq_base_addr_vf_reg (bit_and buf_dma 0xfffff000)
    ∷ write_dword window (mqnic_eq_base_addr_vf_reg + 4) (shr buf_dma 32)
    ∷ write_dword window mqnic_eq_ctrl_status_reg (bit_or mqnic_eq_cmd_set_size log_size)
    ∷ write_dword window mqnic_eq_ctrl_status_reg (bit_or mqnic_eq_cmd_set_irqn irq)
    ∷ write_dword window mqnic_eq_ctrl_status_reg
        (bit_or mqnic_eq_cmd_set_prod_ptr (bit_and 0 mqnic_eq_ptr_mask))
    ∷ write_dword window mqnic_eq_ctrl_status_reg
        (bit_or mqnic_eq_cmd_set_cons_ptr (bit_and 0 mqnic_eq_ptr_mask))
    ∷ write_dword window mqnic_eq_ctrl_status_reg (bit_or mqnic_eq_cmd_set_enable 1)
    ∷ []

-- The EQ that `open` leaves, once it has its number, its window and its memory.
abbrev pub opened : (irq size eqn window buf_dma : ℕ) → Eq
opened irq size eqn window buf_dma =
    let log_size : ℕ = bit_length size - 1 in
    record {
      log_size = log_size;
      size = 2 ^ log_size;
      size_mask = 2 ^ log_size - 1;
      stride = mqnic_event_size;
      eqn = some eqn;
      enabled = true;
      buf_size = 2 ^ log_size * mqnic_event_size;
      buf_dma = buf_dma;
      buf = λ _. 0;
      irq = some irq;
      cq_table = [];
      prod_ptr = 0;
      cons_ptr = 0;
      hw_regs = some window;
    }

-- A call's new EQ, resource and pool, and its writes.
pub record Opened : Type 0 where
  pub eq : Eq
  pub eq_res : Resource
  pub pool : Pool
  pub writes : List Write

-- Eq.open. The size is rounded down to a power of two; a size of 0 is outside the model.
unfoldable pub open_eq : (irq size : ℕ) → Resource → Pool → Eq → Result Opened
open_eq irq size eq_res pool eq = do
  guard (is_none eq.hw_regs) already_open
  (eqn, eq_res') ← alloc eq_res
  guard (not (size == 0)) not_an_integer
  let log_size = bit_length size - 1
  let (buf_dma, pool') = alloc_region pool
  let (window, eq_res'') = get_window eqn eq_res'
  ok (record {
    eq = opened irq size eqn window buf_dma;
    eq_res = eq_res'';
    pool = pool';
    writes = open_writes window buf_dma log_size irq;
  })

-- `self.interface.eq_res.free(self.eqn)`; an open EQ has a number.
free_number : Option ℕ → Resource → Resource
free_number none r = r
free_number (some n) r = Resource.free n r

close_at : Option ℕ → Eq → Resource → Eq × Resource × List Write
close_at none eq eq_res = (eq, eq_res, [])
close_at (some window) eq eq_res = (
  record eq { irq = none; enabled = false; hw_regs = none; eqn = none },
  free_number eq.eqn eq_res,
  write_dword window mqnic_eq_ctrl_status_reg (bit_or mqnic_eq_cmd_set_enable 0) ∷ [],
)

-- Eq.close: nothing, if the EQ is not open.
unfoldable pub close : Eq → Resource → Eq × Resource × List Write
unfolding close_at free_number
close eq eq_res = close_at eq.hw_regs eq eq_res

-- Eq.attach_cq
unfoldable pub set_key : ℕ → ℕ → List (ℕ × ℕ) → List (ℕ × ℕ)
set_key k v [] = (k, v) ∷ []
set_key k v ((j, w) ∷ t) = if j == k then (k, v) ∷ t else (j, w) ∷ set_key k v t

unfoldable pub attach_cq : (cqn cq : ℕ) → Eq → Eq
unfolding set_key
attach_cq cqn cq eq = record eq { cq_table = set_key cqn cq eq.cq_table }

-- `del self.cq_table[cq.cqn]`, KeyError if it is not there
unfoldable pub del_key : ℕ → List (ℕ × ℕ) → Result (List (ℕ × ℕ))
del_key k [] = err key_error
del_key k ((j, w) ∷ t) =
    let rest = (do t' ← del_key k t; ok ((j, w) ∷ t')) in if j == k then ok t else rest

unfoldable pub detach_cq : ℕ → Eq → Result Eq
unfolding del_key
detach_cq cqn eq = do t ← del_key cqn eq.cq_table; ok (record eq { cq_table = t })

-- `self.cq_table[cqn]`, KeyError if it is not there
unfoldable pub cq_at : ℕ → List (ℕ × ℕ) → Result ℕ
cq_at k [] = err key_error
cq_at k ((j, w) ∷ t) = if j == k then ok w else cq_at k t

-- Eq.write_cons_ptr; a closed EQ has no registers (AttributeError).
unfoldable pub write_cons_ptr : Eq → Result (List Write)
write_cons_ptr eq = elim eq.hw_regs [
  | none ↦ err attribute_error
  | some window ↦ ok (
      write_dword window mqnic_eq_ctrl_status_reg
        (bit_or mqnic_eq_cmd_set_cons_ptr (bit_and eq.cons_ptr mqnic_eq_ptr_mask))
      ∷ [])
]

-- Eq.arm: nothing, if the EQ is not open.
unfoldable pub arm : Eq → List Write
arm eq = elim eq.hw_regs [
  | none ↦ []
  | some window ↦ write_dword window mqnic_eq_ctrl_status_reg (bit_or mqnic_eq_cmd_set_arm 1) ∷ []
]
