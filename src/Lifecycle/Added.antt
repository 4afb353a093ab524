-- ===== src/Lifecycle/Added.antt =====
-- A well-formed interface gets one more queue, and a CQ of its own that has nothing new.
use schedra_nic.Prelude.{
  ℕ, ◌+◌, ◌≤◌, ◌≡◌, inl, inr, refl, true, List, [], ◌∷◌, ◌++◌, some, arith, length, get_elem?,
  total-append_new, total_mono, get_elem?-append_old, get_elem?-append_new, append_new-All,
}
use schedra_nic.Resource.{Resource}
use schedra_nic.Packets.{Packets}
use schedra_nic.Packets.Ownership.{Owns, Owns-agree, available}
use schedra_nic.Ring.Slots.{holds}
use schedra_nic.Ring.Occupancy.{occupied}
use schedra_nic.Eq.{Eq}
use schedra_nic.Cq.{Cq, process_tx_cq, process_rx_cq}
use schedra_nic.Cq.Completion.{IsCq, is_old}
use schedra_nic.Txq.{Txq}
use schedra_nic.Txq.Transmit
use schedra_nic.Rxq.{Rxq}
use schedra_nic.Rxq.Refill
use schedra_nic.Interface.{Interface}
use schedra_nic.Interface.Well.{IsWell, IsEq, Linked, to_tx, to_rx, held_by, in_rings, ring_sizes}
use schedra_nic.Interface.Cqs.{nothing_new}
use schedra_nic.Interface.Handlers.{tx_in_ring, rx_in_ring}
use schedra_nic.Lifecycle.Links.{append-one_each, Linked-more, new_link}

abbrev pub with_tx : Interface → List Eq → Cq → Txq → (cq_res txq_res : Resource) → Interface
with_tx i eqs q t cq_res txq_res = record i {
  eqs = eqs;
  cqs = i.cqs ++ q ∷ [];
  txqs = i.txqs ++ t ∷ [];
  cq_res = cq_res;
  txq_res = txq_res;
}

abbrev pub with_rx : Interface → List Eq → Cq → Rxq → (cq_res rxq_res : Resource) → Interface
with_rx i eqs q t cq_res rxq_res = record i {
  eqs = eqs;
  cqs = i.cqs ++ q ∷ [];
  rxqs = i.rxqs ++ t ∷ [];
  cq_res = cq_res;
  rxq_res = rxq_res;
}

module _ {i : Interface} {packets packets' : Packets} {other : ℕ → ℕ} {slack slack' : ℕ}
    (eqs' : List Eq) (q : Cq) (well : IsWell i packets other slack) (v : IsCq q)
    (idle : is_old q q.cons_ptr ≡ true)
    (eqs_well : (p : ℕ) (eq : Eq) → get_elem? eqs' p ≡ some eq → IsEq (i.cqs ++ q ∷ []) eq) where
  -- The interface with one more transmit queue.
  pub tx_added-IsWell :
      (t : Txq) (cq_res txq_res : Resource)
      → q.handler ≡ some process_tx_cq
      → q.src_ring ≡ some (length i.txqs)
      → Transmit.IsOpen t
      → Owns packets' (λ j. other j + held_by i j + holds t.tx_info j)
      → ring_sizes i + t.size + slack' ≤ available packets' + (in_rings i + occupied t.tx_info)
      → IsWell (with_tx i eqs' q t cq_res txq_res) packets' other slack'
  tx_added-IsWell t cq_res txq_res h s ready owns enough = record {
    tx_open = append_new-All Transmit.IsOpen i.txqs t well.tx_open ready;
    rx_open = well.rx_open;
    cq_open =
        append_new-All (λ z. IsCq z × Linked (with_tx i eqs' q t cq_res txq_res) z) i.cqs q
          (λ p z g. (
            (well.cq_open p z g).0,
            Linked-more (λ r u g'. get_elem?-append_old i.txqs r t g') (λ r u g'. g')
                (well.cq_open p z g).1,
          ))
          (
            v,
            to_tx (length i.txqs) t h s (get_elem?-append_new i.txqs t)
                (nothing_new q t.tx_info idle),
          );
    one_each = append-one_each i.cqs q well.one_each (new_link q well h s (inl (refl, refl)));
    eq_open = eqs_well;
    owns =
        Owns-agree (λ j. omega (arith, total-append_new (λ (u : Txq). holds u.tx_info j) i.txqs t))
          owns;
    enough = omega (
      arith,
      enough,
      total-append_new (λ (u : Txq). u.size) i.txqs t,
      total-append_new (λ (u : Txq). occupied u.tx_info) i.txqs t,
    );
  }

  -- The interface with one more receive queue.
  pub rx_added-IsWell :
      (t : Rxq) (cq_res rxq_res : Resource)
      → q.handler ≡ some process_rx_cq
      → q.src_ring ≡ some (length i.rxqs)
      → Refill.IsOpen t
      → Owns packets' (λ j. other j + held_by i j + holds t.rx_info j)
      → ring_sizes i + t.size + slack' ≤ available packets' + (in_rings i + occupied t.rx_info)
      → IsWell (with_rx i eqs' q t cq_res rxq_res) packets' other slack'
  rx_added-IsWell t cq_res rxq_res h s ready owns enough = record {
    tx_open = well.tx_open;
    rx_open = append_new-All Refill.IsOpen i.rxqs t well.rx_open ready;
    cq_open =
        append_new-All (λ z. IsCq z × Linked (with_rx i eqs' q t cq_res rxq_res) z) i.cqs q
          (λ p z g. (
            (well.cq_open p z g).0,
            Linked-more (λ r u g'. g') (λ r u g'. get_elem?-append_old i.rxqs r t g')
                (well.cq_open p z g).1,
          ))
          (
            v,
            to_rx (length i.rxqs) t h s (get_elem?-append_new i.rxqs t)
                (nothing_new q t.rx_info idle),
          );
    one_each = append-one_each i.cqs q well.one_each (new_link q well h s (inr (refl, refl)));
    eq_open = eqs_well;
    owns =
        Owns-agree (λ j. omega (arith, total-append_new (λ (u : Rxq). holds u.rx_info j) i.rxqs t))
          owns;
    enough = omega (
      arith,
      enough,
      total-append_new (λ (u : Rxq). u.size) i.rxqs t,
      total-append_new (λ (u : Rxq). occupied u.rx_info) i.rxqs t,
    );
  }

-- What is kept for others is there beside the buffers that the rings need.
pub slack_left :
    {i : Interface} {packets : Packets} {other : ℕ → ℕ} {slack : ℕ}
    → IsWell i packets other slack
    → slack ≤ available packets
slack_left {i} well = omega (
  arith,
  well.enough,
  total_mono (λ (t : Txq). occupied t.tx_info) (λ (t : Txq). t.size) i.txqs (tx_in_ring well),
  total_mono (λ (t : Rxq). occupied t.rx_info) (λ (t : Rxq). t.size) i.rxqs (rx_in_ring well),
)

-- The mark that the port is up concerns neither queues nor buffers.
pub port_up-IsWell :
    {i : Interface} {packets : Packets} {other : ℕ → ℕ} {slack slack' : ℕ}
    → slack' ≤ slack
    → IsWell i packets other slack
    → IsWell (record i { port_up = true }) packets other slack'
port_up-IsWell {i} less well = record {
  tx_open = well.tx_open;
  rx_open = well.rx_open;
  cq_open = λ p q h. (
    (well.cq_open p q h).0,
    Linked-more {i = i} {i' = record i { port_up = true }} (λ r t g. g) (λ r t g. g)
        (well.cq_open p q h).1,
  );
  one_each = well.one_each;
  eq_open = well.eq_open;
  owns = well.owns;
  enough = omega (arith, well.enough);
}
