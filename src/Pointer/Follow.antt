-- ===== src/Pointer/Follow.antt =====
-- The driver's pointer catches up with the device's.
use schedra_nic.Prelude.{ℕ, ◌+◌, ◌*◌, ◌%◌, ◌^◌, ◌≤◌, ◌<◌, ◌≡◌, arith, and_mask}
use schedra_nic.Pointer.{eq_read_prod_ptr, cq_read_prod_ptr, queue_read_cons_ptr}

-- If the device's pointer is ahead by less than 65536, what the three reads make of the register is
-- exactly that pointer: of its low half for the producer pointer of an EQ or a CQ, of its high half
-- for the consumer pointer of a TX or RX queue.
pub read_ptr_lem :
    (mine device other : ℕ)
    → mine ≤ device
    → device < mine + 2 ^ 16
    → other < 2 ^ 16
    → (eq_read_prod_ptr (other * 2 ^ 16 + device % 2 ^ 16) mine ≡ device)
      × (cq_read_prod_ptr (other * 2 ^ 16 + device % 2 ^ 16) mine ≡ device)
      × (queue_read_cons_ptr (device % 2 ^ 16 * 2 ^ 16 + other) mine ≡ device)
unfolding eq_read_prod_ptr cq_read_prod_ptr queue_read_cons_ptr
read_ptr_lem mine device other le lt o = (
  omega (arith, and_mask 16 (other * 2 ^ 16 + device % 2 ^ 16)),
  omega (arith, and_mask 16 (other * 2 ^ 16 + device % 2 ^ 16)),
  omega arith,
)
