-- ===== src/Interface/Arrivals.antt =====
-- The packets that the handlers of `Driver.interrupt_handler` append to `pkt_rx_queue`.
use schedra_nic.Prelude.{ℕ, ◌≡◌, refl, ap, sym, subst, ◌∙◌, List, [], ◌++◌, some, get_elem?, set}
use mathlib.Core.List.{append-nil, append_assoc}
use schedra_nic.Struct.{Bytes}
use schedra_nic.Cq.{Cq, process_tx_cq, process_rx_cq}
use schedra_nic.Rxq.{Rxq, Packet}
use schedra_nic.Rxq.Receive.{Delivered}

-- What came, with these contents of memory, while the CQs went from one list to another, one handler after the other: the handler
-- of a receive CQ that moves its pointer brings exactly the packets that the completions up to
-- there announce, in their order, and that of a transmit CQ brings none.
pub data Arrived (mem : Bytes) (cqs : List Cq) : List Cq → List Packet → Type 0 where
  none_came : Arrived mem cqs cqs []
  from_rx :
      (t : Rxq) (p : ℕ) (q q' : Cq) (l l' : List Cq) (skbs more all : List Packet)
      → Arrived mem cqs l skbs
      → get_elem? l p ≡ some q
      → q.handler ≡ some process_rx_cq
      → q' ≡ record q { cons_ptr = q'.cons_ptr }
      → Delivered mem q t q.cons_ptr q'.cons_ptr more
      → l' ≡ set l p q'
      → all ≡ skbs ++ more
      → Arrived mem cqs l' all
  from_tx :
      (p : ℕ) (q q' : Cq) (l l' : List Cq) (skbs : List Packet)
      → Arrived mem cqs l skbs
      → get_elem? l p ≡ some q
      → q.handler ≡ some process_tx_cq
      → q' ≡ record q { cons_ptr = q'.cons_ptr }
      → l' ≡ set l p q'
      → Arrived mem cqs l' skbs

-- What came, and then what came after it.
pub and_then-Arrived :
    {mem : Bytes} {cqs l l' : List Cq} {skbs more : List Packet} (all : List Packet)
    → Arrived mem cqs l skbs
    → Arrived mem l l' more
    → all ≡ skbs ++ more
    → Arrived mem cqs l' all
and_then-Arrived {mem} {cqs} {l} {skbs = skbs} all a none_came e =
    subst (Arrived mem cqs l) (sym (e ∙ append-nil skbs)) a
and_then-Arrived {skbs = skbs} all a
      (from_rx t p q q' m m' first more both b at handler same delivered moved total) e =
    from_rx t p q q' m m' (skbs ++ first) more all (and_then-Arrived (skbs ++ first) a b refl) at
      handler same delivered moved
      (e ∙ ap (λ z. skbs ++ z) total ∙ sym (append_assoc skbs first more))
and_then-Arrived all a (from_tx p q q' m m' first b at handler same moved) e =
    from_tx p q q' m m' all (and_then-Arrived all a b e) at handler same moved
