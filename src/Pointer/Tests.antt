-- ===== src/Pointer/Tests.antt =====
-- A pointer that has wrapped around its 16 bits is followed.
use schedra_nic.Prelude.{◌+◌, ◌*◌, ◌%◌, ◌^◌, ◌≡◌, arith}
use schedra_nic.Pointer.{eq_read_prod_ptr, cq_read_prod_ptr, queue_read_cons_ptr}
use schedra_nic.Pointer.Follow.{read_ptr_lem}

read_ptr_lem_example :
    (eq_read_prod_ptr (5 * 2 ^ 16 + 65540 % 2 ^ 16) 65530 ≡ 65540)
    × (cq_read_prod_ptr (5 * 2 ^ 16 + 65540 % 2 ^ 16) 65530 ≡ 65540)
    × (queue_read_cons_ptr (65540 % 2 ^ 16 * 2 ^ 16 + 5) 65530 ≡ 65540)
read_ptr_lem_example = read_ptr_lem 65530 65540 5 (omega arith) (omega arith) (omega arith)
