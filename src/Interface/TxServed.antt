-- ===== src/Interface/TxServed.antt =====
-- An interface stays well formed when the handler of a transmit queue has served its CQ.
use schedra_nic.Prelude.{
  ℕ, ◌+◌, ◌-◌, ◌≤◌, ◌≡◌, ◌≢◌, refl, ap, ◌∙◌, sym, subst, inl, inr, some, get_elem?, set, arith,
  total-le, total-set, get_elem?-set_cases, get_elem?-set_here, get_elem?-set_ne,
}
use schedra_nic.Packets.{Packets}
use schedra_nic.Packets.Ownership.{Owns, Owns-agree, available}
use schedra_nic.Ring.Slots.{holds}
use schedra_nic.Ring.Occupancy.{occupied}
use schedra_nic.Cq.{Cq, process_tx_cq}
use schedra_nic.Cq.Completion.{IsCq}
use schedra_nic.Txq.{Txq, Processed}
use schedra_nic.Txq.Transmit
use schedra_nic.Txq.Complete.{Completed}
use schedra_nic.Interface.{Interface}
use schedra_nic.Interface.Well.{IsWell, Linked, to_tx, to_rx, link, held_by, in_rings, ring_sizes}
use schedra_nic.Interface.Cqs.{
  link-set, nothing_new, moved-IsCq, moved-link, moved-is_old, IsEq-links,
}

module _ {i : Interface} {packets : Packets} {other : ℕ → ℕ} {slack : ℕ}
    (well : IsWell i packets other slack) (r : ℕ) {t : Txq}
    (ring : get_elem? i.txqs r ≡ some t) where
  -- The buffers held elsewhere, seen from one ring.
  abbrev pub beside : ℕ → ℕ
  beside j = other j + held_by i j - holds t.tx_info j

  held-le : (j : ℕ) → holds t.tx_info j ≤ held_by i j
  held-le j = omega (arith, total-le (λ (u : Txq). holds u.tx_info j) i.txqs r ring)

  pub beside-Owns : Owns packets (λ j. beside j + holds t.tx_info j)
  beside-Owns = Owns-agree (λ j. omega (arith, held-le j)) well.owns

  -- A ring in the place of this one, which holds what the buffers say, leaves all in one place.
  pub replaced-Owns :
      (t' : Txq) (packets' : Packets)
      → Owns packets' (λ j. beside j + holds t'.tx_info j)
      → Owns packets' (λ j. other j + held_by (record i { txqs = set i.txqs r t' }) j)
  replaced-Owns t' packets' o =
      Owns-agree
        (λ j. omega (arith, held-le j, total-set (λ (u : Txq). holds u.tx_info j) i.txqs r t' ring))
        o

  pub replaced-enough :
      (t' : Txq) (packets' : Packets)
      → available packets' + occupied t'.tx_info ≡ available packets + occupied t.tx_info
      → t'.size ≡ t.size
      → ring_sizes (record i { txqs = set i.txqs r t' }) + slack
        ≤ available packets' + in_rings (record i { txqs = set i.txqs r t' })
  replaced-enough t' packets' b s = omega (
    arith,
    well.enough,
    total-set (λ (u : Txq). occupied u.tx_info) i.txqs r t' ring,
    total-set (λ (u : Txq). u.size) i.txqs r t' ring,
  )

  pub replaced-open :
      (t' : Txq)
      → Transmit.IsOpen t'
      → (r' : ℕ) (u : Txq) → get_elem? (set i.txqs r t') r' ≡ some u
      → Transmit.IsOpen u
  replaced-open t' o r' u g = elim (get_elem?-set_cases i.txqs r r' t' g) [
    | inl (_, e) ↦ subst Transmit.IsOpen e o
    | inr (_, h) ↦ well.tx_open r' u h
  ]

  module _ (p : ℕ) {q : Cq} (cq : get_elem? i.cqs p ≡ some q) (tx : q.handler ≡ some process_tx_cq)
      (source : q.src_ring ≡ some r) (res : Processed)
      (done : Completed q t packets beside res) where
    abbrev pub served : Interface
    served = record i { cqs = set i.cqs p res.cq; txqs = set i.txqs r res.txq }

    pub served-links : (x : ℕ) → link (get_elem? served.cqs x) ≡ link (get_elem? i.cqs x)
    served-links x = link-set i.cqs p res.cq cq (moved-link q res.cq done.same_cq) x

    this_cq : IsCq res.cq × Linked served res.cq
    this_cq = (
      moved-IsCq q res.cq done.same_cq (well.cq_open p q cq).0,
      to_tx r res.txq (ap (λ (z : Cq). z.handler) done.same_cq ∙ tx)
          (ap (λ (z : Cq). z.src_ring) done.same_cq ∙ source)
          (get_elem?-set_here i.txqs r res.txq ring)
          (nothing_new res.cq res.txq.tx_info
            (moved-is_old q res.cq done.same_cq res.cq.cons_ptr done.at_old)),
    )

    -- Another CQ belongs to another ring.
    other_cq :
        (p' : ℕ) (q' : Cq) → p ≢ p' → get_elem? i.cqs p' ≡ some q' → Linked i q' → Linked served q'
    other_cq p' q' ne g (to_tx r' t' h s at a) =
        to_tx r' t' h s (get_elem?-set_ne i.txqs res.txq apart ∙ at) a
      where
        apart : r ≢ r'
        apart e =
            well.one_each p p' (some process_tx_cq, some r) ne (rw (cq, tx, source) refl)
              (rw (g, h, s, e) refl)
    other_cq p' q' ne g (to_rx r' t' h s at a) = to_rx r' t' h s at a

    pub tx_served-IsWell : IsWell served res.packets other slack
    tx_served-IsWell = record {
      tx_open = replaced-open res.txq done.still_open;
      rx_open = well.rx_open;
      cq_open = λ p' q' g. elim (get_elem?-set_cases i.cqs p p' res.cq g) [
        | inl (_, e) ↦ subst (λ z. IsCq z × Linked served z) e this_cq
        | inr (ne, h) ↦ ((well.cq_open p' q' h).0, other_cq p' q' ne h (well.cq_open p' q' h).1)
      ];
      one_each = λ p1 p2 k ne e f.
          well.one_each p1 p2 k ne (sym (served-links p1) ∙ e) (sym (served-links p2) ∙ f);
      eq_open = λ e eq g. IsEq-links served-links (well.eq_open e eq g);
      owns = replaced-Owns res.txq res.packets done.owns;
      enough = replaced-enough res.txq res.packets done.buffers done.size;
    }
