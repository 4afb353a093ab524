-- ===== src/Pointer.antt =====
-- The 16-bit queue pointers of tb/mqnic_core_pcie_us_schedule/mqnic.py: the driver keeps a pointer
-- that only grows, and the device shows its low 16 bits.
pub mod Follow
mod Tests
use schedra_nic.Prelude.{ℕ, ◌+◌, ◌-◌, ◌%◌, ◌^◌, bit_and, shr}
use schedra_nic.Regs.{mqnic_eq_ptr_mask, mqnic_cq_ptr_mask}

-- `(a - b) & 0xFFFF`. The difference may be negative, and Python's `&` then takes it modulo 65536.
abbrev pub masked_sub : ℕ → ℕ → ℕ
masked_sub a b = (a + (2 ^ 16 - b % 2 ^ 16)) % 2 ^ 16

-- Eq.read_prod_ptr: the new `prod_ptr`, from the dword read.
unfoldable pub eq_read_prod_ptr : (val prod_ptr : ℕ) → ℕ
eq_read_prod_ptr val prod_ptr = prod_ptr + masked_sub (bit_and val mqnic_eq_ptr_mask) prod_ptr

-- Cq.read_prod_ptr
unfoldable pub cq_read_prod_ptr : (val prod_ptr : ℕ) → ℕ
cq_read_prod_ptr val prod_ptr = prod_ptr + masked_sub (bit_and val mqnic_cq_ptr_mask) prod_ptr

-- Txq.read_cons_ptr and Rxq.read_cons_ptr: the new `cons_ptr`. The mask is that of `masked_sub`.
unfoldable pub queue_read_cons_ptr : (val cons_ptr : ℕ) → ℕ
queue_read_cons_ptr val cons_ptr = cons_ptr + masked_sub (shr val 16) cons_ptr
