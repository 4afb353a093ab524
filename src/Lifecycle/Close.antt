-- ===== src/Lifecycle/Close.antt =====
-- `Interface.close` with and without queues.
use schedra_nic.Prelude.{
  ℕ, ◌-◌, ◌≡◌, ◌≢◌, refl, ◌⊎◌, inl, inr, false, List, [], ◌∷◌, ◌++◌, some, get_elem?, arith,
}
use schedra_nic.Device.{ok, err, type_error, >>=-eq-ok}
use schedra_nic.Packets.{Packets}
use schedra_nic.Ring.{Slots, free_buf}
use schedra_nic.Txq.{Txq}
use schedra_nic.Rxq.{Rxq}
use schedra_nic.Port.{Port, set_tx_ctrl, set_rx_ctrl}
use schedra_nic.Interface.{Interface, Changed}
use schedra_nic.Lifecycle.{close_first, close_txqs, close_rxqs, close_interface}

first_raises :
    (size_mask prod_ptr cons_ptr : ℕ) (info : Slots) (packets : Packets) (s : Changed)
    → close_first size_mask prod_ptr cons_ptr info packets ≢ ok s
unfolding close_first
first_raises size_mask prod_ptr cons_ptr info packets s e =
    let (freed, _, returned) =
      >>=-eq-ok (free_buf (prod_ptr - cons_ptr) size_mask prod_ptr cons_ptr info packets)
        (λ _. err type_error) e in
    cc

-- With a port, close returns exactly when the interface has no queues: then it switches both
-- directions of the first port off and leaves the interface down; with any queue it raises.
pub close_interface_lem :
    (ports : List Port) (i : Interface) (packets : Packets) {port : Port}
    → get_elem? ports 0 ≡ some port
    → ((i.txqs ≡ [])
        × (i.rxqs ≡ [])
        × (close_interface ports i packets
            ≡ ok (
              record i { port_up = false; txqs = []; rxqs = [] },
              packets,
              set_rx_ctrl 0 port ++ set_tx_ctrl 0 port,
            )))
      ⊎ (((i.txqs ≢ []) ⊎ (i.rxqs ≢ [])) × ((s : Changed) → close_interface ports i packets ≢ ok s))
unfolding close_interface close_txqs close_rxqs
close_interface_lem ports i packets {port} there = by_queues i.txqs i.rxqs refl refl
  where
    by_queues :
        (txqs : List Txq) (rxqs : List Rxq)
        → i.txqs ≡ txqs
        → i.rxqs ≡ rxqs
        → ((i.txqs ≡ [])
            × (i.rxqs ≡ [])
            × (close_interface ports i packets
                ≡ ok (
                  record i { port_up = false; txqs = []; rxqs = [] },
                  packets,
                  set_rx_ctrl 0 port ++ set_tx_ctrl 0 port,
                )))
          ⊎ (((i.txqs ≢ []) ⊎ (i.rxqs ≢ []))
              × ((s : Changed) → close_interface ports i packets ≢ ok s))
    by_queues [] [] no_tx no_rx = inl (no_tx, no_rx, ground (arith, there, no_tx, no_rx))
    by_queues (q ∷ qs) rxqs tx rx = inr (
      inl (λ e. absurd (ground (arith, tx, e))),
      λ s e.
          first_raises q.size_mask q.prod_ptr q.cons_ptr q.tx_info packets s
            (ground (arith, there, tx, e)),
    )
    by_queues [] (q ∷ qs) tx rx = inr (
      inr (λ e. absurd (ground (arith, rx, e))),
      λ s e.
          first_raises q.size_mask q.prod_ptr q.cons_ptr q.rx_info packets s
            (ground (arith, there, tx, rx, e)),
    )
