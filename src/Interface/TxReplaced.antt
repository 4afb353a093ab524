-- ===== src/Interface/TxReplaced.antt =====
-- An interface stays well formed when a transmit queue is replaced by one that its CQ still answers.
use schedra_nic.Prelude.{
  ℕ, ◌+◌, ◌≡◌, ap, ◌∙◌, sym, subst, none, some, get_elem?, set, get_elem?-set_here,
  get_elem?-set_ne, ℕ_discrete,
}
use schedra_nic.Packets.{Packets}
use schedra_nic.Packets.Ownership.{Owns, available}
use schedra_nic.Ring.{Slots}
use schedra_nic.Ring.Slots.{holds}
use schedra_nic.Ring.Occupancy.{occupied}
use schedra_nic.Cq.{Cq, completed_index}
use schedra_nic.Cq.Completion.{Answers}
use schedra_nic.Txq.{Txq}
use schedra_nic.Txq.Transmit
use schedra_nic.Interface.{Interface}
use schedra_nic.Interface.Well.{IsWell, Linked, to_tx, to_rx}
use schedra_nic.Interface.TxServed.{beside, replaced-Owns, replaced-enough, replaced-open}

-- Completions that answer a ring answer it with one more slot filled.
pub Answers-filled :
    (q : Cq) {k k' size_mask prod prod' cons cons' from : ℕ} (info : Slots) (slot pkt : ℕ)
    → get_elem? info slot ≡ some none
    → Answers q k size_mask prod cons from info
    → Answers q k' size_mask prod' cons' from (set info slot (some pkt))
Answers-filled q {size_mask = size_mask} info slot pkt vacant a = record {
  holds_packet = λ c l all. elim (ℕ_discrete slot (completed_index q size_mask c)) [
    | yes e ↦ (
      pkt,
      ap (get_elem? (set info slot (some pkt))) (sym e)
          ∙ get_elem?-set_here info slot (some pkt) vacant,
    )
    | no ne ↦ let (p, at) = a.holds_packet c l all in (p, get_elem?-set_ne info (some pkt) ne ∙ at)
  ];
  apart = a.apart;
}

module _ {i : Interface} {packets : Packets} {other : ℕ → ℕ} {slack : ℕ}
    (well : IsWell i packets other slack) (r : ℕ) {t : Txq} (ring : get_elem? i.txqs r ≡ some t)
    (t' : Txq)
    (keeps : (q : Cq)
      → Answers q t.log_queue_size t.size_mask t.prod_ptr t.cons_ptr q.cons_ptr t.tx_info
      → Answers q t'.log_queue_size t'.size_mask t'.prod_ptr t'.cons_ptr q.cons_ptr
          t'.tx_info) where
  still-Linked : (q : Cq) → Linked i q → Linked (record i { txqs = set i.txqs r t' }) q
  still-Linked q (to_rx r' u h s at a) = to_rx r' u h s at a
  still-Linked q (to_tx r' u h s at a) = elim (ℕ_discrete r r') [
    | yes e ↦ to_tx r t' h (s ∙ ap some (sym e)) (get_elem?-set_here i.txqs r t' ring) (
        keeps q (
          subst
            (λ (z : Txq).
              Answers q z.log_queue_size z.size_mask z.prod_ptr z.cons_ptr q.cons_ptr z.tx_info)
            (this_one e at) a))
    | no ne ↦ to_tx r' u h s (get_elem?-set_ne i.txqs t' ne ∙ at) a
  ]
    where
      this_one : {r' : ℕ} {u : Txq} → r ≡ r' → get_elem? i.txqs r' ≡ some u → u ≡ t
      this_one e at = cc

  pub tx_replaced-IsWell :
      (packets' : Packets)
      → Transmit.IsOpen t'
      → Owns packets' (λ j. beside well r ring j + holds t'.tx_info j)
      → available packets' + occupied t'.tx_info ≡ available packets + occupied t.tx_info
      → t'.size ≡ t.size
      → IsWell (record i { txqs = set i.txqs r t' }) packets' other slack
  tx_replaced-IsWell packets' o owns buffers size = record {
    tx_open = replaced-open well r ring t' o;
    rx_open = well.rx_open;
    cq_open = λ p q h. ((well.cq_open p q h).0, still-Linked q (well.cq_open p q h).1);
    one_each = well.one_each;
    eq_open = well.eq_open;
    owns = replaced-Owns well r ring t' packets' owns;
    enough = replaced-enough well r ring t' packets' buffers size;
  }
