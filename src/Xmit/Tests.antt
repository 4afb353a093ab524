-- ===== src/Xmit/Tests.antt =====
-- The words that the device gets.
use schedra_nic.Prelude.{◌+◌, ◌*◌, ◌%◌, ◌^◌, ◌≡◌, refl, [], ◌∷◌, arith}
use schedra_nic.Device.{ok, write_dword}
use schedra_nic.Regs.{mqnic_queue_ctrl_status_reg, mqnic_queue_rank_wqe}
use schedra_nic.Txq.{write_prod_ptr}
use schedra_nic.Xmit.Command.{write_prod_ptr_lem}
use schedra_nic.Sample.{txq}

write_prod_ptr_lem_example :
    write_prod_ptr 9 1 txq
    ≡ ok (
        write_dword 0x2000 mqnic_queue_ctrl_status_reg (0x8080 * 2 ^ 16 + 1 % 2 ^ 16)
        ∷ write_dword 0x2000 mqnic_queue_rank_wqe (9 * 2 ^ 3 + 1)
        ∷ [])
write_prod_ptr_lem_example = write_prod_ptr_lem 9 1 txq 0x2000 refl (omega arith) (omega arith)
