-- ===== src/Interface/RxServed.antt =====
-- An interface stays well formed when the handler of a receive queue has served its CQ.
use schedra_nic.Prelude.{
  ℕ, ◌+◌, ◌-◌, ◌≤◌, ◌≡◌, ◌≢◌, refl, ap, ◌∙◌, sym, subst, inl, inr, some, get_elem?, set, arith,
  total-le, total-set, get_elem?-set_cases, get_elem?-set_here, get_elem?-set_ne,
}
use schedra_nic.Struct.{Bytes}
use schedra_nic.Packets.{Packets}
use schedra_nic.Packets.Ownership.{Owns, Owns-agree, available}
use schedra_nic.Ring.Slots.{holds}
use schedra_nic.Ring.Occupancy.{occupied}
use schedra_nic.Cq.{Cq, process_rx_cq}
use schedra_nic.Cq.Completion.{IsCq}
use schedra_nic.Rxq.{Rxq, Processed}
use schedra_nic.Rxq.Refill
use schedra_nic.Rxq.Receive.{Received}
use schedra_nic.Interface.{Interface}
use schedra_nic.Interface.Well.{IsWell, Linked, to_rx, to_tx, link, held_by, in_rings, ring_sizes}
use schedra_nic.Interface.Cqs.{
  link-set, nothing_new, moved-IsCq, moved-link, moved-is_old, IsEq-links,
}

module _ {i : Interface} {packets : Packets} {other : ℕ → ℕ} {slack : ℕ}
    (well : IsWell i packets other slack) (r : ℕ) {t : Rxq}
    (ring : get_elem? i.rxqs r ≡ some t) where
  -- The buffers held elsewhere, seen from one ring.
  abbrev pub beside : ℕ → ℕ
  beside j = other j + held_by i j - holds t.rx_info j

  held-le : (j : ℕ) → holds t.rx_info j ≤ held_by i j
  held-le j = omega (arith, total-le (λ (u : Rxq). holds u.rx_info j) i.rxqs r ring)

  pub beside-Owns : Owns packets (λ j. beside j + holds t.rx_info j)
  beside-Owns = Owns-agree (λ j. omega (arith, held-le j)) well.owns

  -- A ring in the place of this one, which holds what the buffers say, leaves all in one place.
  pub replaced-Owns :
      (t' : Rxq) (packets' : Packets)
      → Owns packets' (λ j. beside j + holds t'.rx_info j)
      → Owns packets' (λ j. other j + held_by (record i { rxqs = set i.rxqs r t' }) j)
  replaced-Owns t' packets' o =
      Owns-agree
        (λ j. omega (arith, held-le j, total-set (λ (u : Rxq). holds u.rx_info j) i.rxqs r t' ring))
        o

  pub replaced-enough :
      (t' : Rxq) (packets' : Packets)
      → available packets' + occupied t'.rx_info ≡ available packets + occupied t.rx_info
      → t'.size ≡ t.size
      → ring_sizes (record i { rxqs = set i.rxqs r t' }) + slack
        ≤ available packets' + in_rings (record i { rxqs = set i.rxqs r t' })
  replaced-enough t' packets' b s = omega (
    arith,
    well.enough,
    total-set (λ (u : Rxq). occupied u.rx_info) i.rxqs r t' ring,
    total-set (λ (u : Rxq). u.size) i.rxqs r t' ring,
  )

  pub replaced-open :
      (t' : Rxq)
      → Refill.IsOpen t'
      → (r' : ℕ) (u : Rxq) → get_elem? (set i.rxqs r t') r' ≡ some u
      → Refill.IsOpen u
  replaced-open t' o r' u g = elim (get_elem?-set_cases i.rxqs r r' t' g) [
    | inl (_, e) ↦ subst Refill.IsOpen e o
    | inr (_, h) ↦ well.rx_open r' u h
  ]

  module _ (mem : Bytes) (p : ℕ) {q : Cq} (cq : get_elem? i.cqs p ≡ some q)
      (rx : q.handler ≡ some process_rx_cq) (source : q.src_ring ≡ some r) (res : Processed)
      (done : Received mem q t packets beside i.rx res) where
    abbrev pub served : Interface
    served = record i { cqs = set i.cqs p res.cq; rxqs = set i.rxqs r res.rxq; rx = res.rx }

    pub served-links : (x : ℕ) → link (get_elem? served.cqs x) ≡ link (get_elem? i.cqs x)
    served-links x = link-set i.cqs p res.cq cq (moved-link q res.cq done.same_cq) x

    this_cq : IsCq res.cq × Linked served res.cq
    this_cq = (
      moved-IsCq q res.cq done.same_cq (well.cq_open p q cq).0,
      to_rx r res.rxq (ap (λ (z : Cq). z.handler) done.same_cq ∙ rx)
          (ap (λ (z : Cq). z.src_ring) done.same_cq ∙ source)
          (get_elem?-set_here i.rxqs r res.rxq ring)
          (nothing_new res.cq res.rxq.rx_info
            (moved-is_old q res.cq done.same_cq res.cq.cons_ptr done.at_old)),
    )

    -- Another CQ belongs to another ring.
    other_cq :
        (p' : ℕ) (q' : Cq) → p ≢ p' → get_elem? i.cqs p' ≡ some q' → Linked i q' → Linked served q'
    other_cq p' q' ne g (to_rx r' t' h s at a) =
        to_rx r' t' h s (get_elem?-set_ne i.rxqs res.rxq apart ∙ at) a
      where
        apart : r ≢ r'
        apart e =
            well.one_each p p' (some process_rx_cq, some r) ne (rw (cq, rx, source) refl)
              (rw (g, h, s, e) refl)
    other_cq p' q' ne g (to_tx r' t' h s at a) = to_tx r' t' h s at a

    pub rx_served-IsWell : IsWell served res.packets other slack
    rx_served-IsWell = record {
      rx_open = replaced-open res.rxq done.still_open;
      tx_open = well.tx_open;
      cq_open = λ p' q' g. elim (get_elem?-set_cases i.cqs p p' res.cq g) [
        | inl (_, e) ↦ subst (λ z. IsCq z × Linked served z) e this_cq
        | inr (ne, h) ↦ ((well.cq_open p' q' h).0, other_cq p' q' ne h (well.cq_open p' q' h).1)
      ];
      one_each = λ p1 p2 k ne e f.
          well.one_each p1 p2 k ne (sym (served-links p1) ∙ e) (sym (served-links p2) ∙ f);
      eq_open = λ e eq g. IsEq-links served-links (well.eq_open e eq g);
      owns = replaced-Owns res.rxq res.packets done.owns;
      enough = replaced-enough res.rxq res.packets done.buffers done.size;
    }
