-- ===== src/Txq/Close.antt =====
-- `Txq.close`: an open queue gives its index back and lets its CQ go.
use schedra_nic.Prelude.{ℕ, ◌≡◌, refl, not, ◌==◌, ◌&&◌, some, none, false, [], ◌∷◌, true, bit_or}
use schedra_nic.Device.{write_dword}
use schedra_nic.Regs.{mqnic_queue_ctrl_status_reg, mqnic_queue_cmd_set_enable}
use schedra_nic.Resource.{Resource}
use schedra_nic.Resource.Laws.{IsValid, held, free_lem}
use schedra_nic.Cq.{Cq}
use schedra_nic.Txq.{Txq, close, close_at, disable, free_index}

-- Closing an open queue whose index is held: the queue is disabled by one write, closed and without
-- a CQ; the CQ has neither source nor handler; the indices stay valid, and exactly the queue's is no
-- longer held.
close_txq_lem :
    (t : Txq) (cq : Cq) (r : Resource) (w i place : ℕ)
    → t.hw_regs ≡ some w
    → t.index ≡ some i
    → t.cq ≡ some place
    → IsValid r
    → held r i ≡ true
    → ((close t cq r).0 ≡ record t { enabled = false; cq = none; hw_regs = none; index = none })
      × ((close t cq r).1 ≡ record cq { src_ring = none; handler = none })
      × IsValid (close t cq r).2
      × ((j : ℕ) → held (close t cq r).2 j ≡ (held r j && not (i == j)))
      × ((close t cq r).3
          ≡ write_dword w mqnic_queue_ctrl_status_reg (bit_or mqnic_queue_cmd_set_enable 0) ∷ [])
unfolding close close_at disable free_index
close_txq_lem t cq r w i place h n c v taken =
    let (valid, freed) = free_lem v i taken in rw (h, n, c) (refl, refl, valid, freed, refl)
