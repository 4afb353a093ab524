-- ===== src/Xmit/Command.antt =====
-- The two words that a transmit writes to the device: the producer pointer and the scheduler's
-- doorbell.
use schedra_nic.Prelude.{
  ℕ, ◌+◌, ◌*◌, ◌%◌, ◌^◌, ◌<◌, ◌≡◌, ap, some, arith, bit_or, ltb, lt→ltb, true, or_fields, [], ◌∷◌,
  and_mask,
}
use schedra_nic.Device.{ok, write_dword}
use schedra_nic.Regs.{
  mqnic_queue_ctrl_status_reg, mqnic_queue_rank_wqe, mqnic_queue_cmd_set_prod_ptr,
}
use schedra_nic.Txq.{Txq, write_prod_ptr}

-- The producer pointer is published before the doorbell is rung: the first write carries its low 16
-- bits under the command 0x8080, and the second the rank, below 2 ^ 29, above the number of packets,
-- below 8.
pub write_prod_ptr_lem :
    (rank wqe : ℕ) (txq : Txq) (w : ℕ)
    → txq.hw_regs ≡ some w
    → rank < 2 ^ 29
    → wqe < 2 ^ 3
    → write_prod_ptr rank wqe txq
      ≡ ok (
          write_dword w mqnic_queue_ctrl_status_reg (0x8080 * 2 ^ 16 + txq.prod_ptr % 2 ^ 16)
          ∷ write_dword w mqnic_queue_rank_wqe (rank * 2 ^ 3 + wqe)
          ∷ [])
unfolding write_prod_ptr
write_prod_ptr_lem rank wqe txq w open_ low small =
    rw (open_, and_mask 16 txq.prod_ptr, or_fields 3 rank wqe small, fits)
      (ap
        (λ v. ok (
          write_dword w mqnic_queue_ctrl_status_reg v
          ∷ write_dword w mqnic_queue_rank_wqe (rank * 2 ^ 3 + wqe)
          ∷ []))
        command)
  where
    fits : ltb (rank * 2 ^ 3 + wqe) (2 ^ 32) ≡ true
    fits = lt→ltb (rank * 2 ^ 3 + wqe) (2 ^ 32) (omega arith)

    command :
        bit_or mqnic_queue_cmd_set_prod_ptr (txq.prod_ptr % 2 ^ 16)
        ≡ 0x8080 * 2 ^ 16 + txq.prod_ptr % 2 ^ 16
    command = or_fields 16 0x8080 (txq.prod_ptr % 2 ^ 16) (omega arith)
