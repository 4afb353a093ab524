-- ===== src/Lifecycle/Links.antt =====
-- The links of the CQs when an interface gets one more queue and its CQ.
use schedra_nic.Prelude.{
  ℕ, zero, suc, ◌<◌, ◌≡◌, ◌≢◌, ◌⊎◌, inl, inr, refl, ap, List, [], ◌∷◌, ◌++◌, Option, some, arith,
  length, get_elem?, same-some, get_elem?-bound,
}
use schedra_nic.Packets.{Packets}
use schedra_nic.Cq.{Cq, Handler, process_tx_cq, process_rx_cq}
use schedra_nic.Txq.{Txq}
use schedra_nic.Rxq.{Rxq}
use schedra_nic.Interface.{Interface}
use schedra_nic.Interface.Well.{IsWell, Linked, to_tx, to_rx, link}

-- The link at a place of the longer list is an old one, or the new one.
link-append_cases :
    (cqs : List Cq) (q : Cq) (p : ℕ) {k : Option Handler × Option ℕ}
    → link (get_elem? (cqs ++ q ∷ []) p) ≡ some k
    → (link (get_elem? cqs p) ≡ some k) ⊎ ((p ≡ length cqs) × (link (some q) ≡ some k))
link-append_cases [] q zero h = inr (refl, h)
link-append_cases [] q (suc p) h = inl h
link-append_cases (x ∷ xs) q zero h = inl h
link-append_cases (x ∷ xs) q (suc p) h = elim (link-append_cases xs q p h) [
  | inl old ↦ inl old
  | inr (e, new) ↦ inr (ap suc e, new)
]

-- Two CQs have different links still, if no old one has the link of the new one.
pub append-one_each :
    (cqs : List Cq) (q : Cq)
    → ((p p' : ℕ) (k : Option Handler × Option ℕ)
        → p ≢ p'
        → link (get_elem? cqs p) ≡ some k
        → link (get_elem? cqs p') ≢ some k)
    → ((p : ℕ) (k : Option Handler × Option ℕ)
        → link (get_elem? cqs p) ≡ some k
        → link (some q) ≢ some k)
    → (p p' : ℕ) (k : Option Handler × Option ℕ) → p ≢ p'
    → link (get_elem? (cqs ++ q ∷ []) p) ≡ some k
    → link (get_elem? (cqs ++ q ∷ []) p') ≢ some k
append-one_each cqs q apart new p p' k ne h h' = elim (link-append_cases cqs q p h) [
  | inl old ↦ elim (link-append_cases cqs q p' h') [
    | inl old' ↦ apart p p' k ne old old'
    | inr (_, last') ↦ new p k old last'
  ]
  | inr (at, last) ↦ elim (link-append_cases cqs q p' h') [
    | inl old' ↦ new p' k old' last
    | inr (at', _) ↦ ne (omega arith)
  ]
]

-- A CQ that is linked names a ring that is there.
Linked-bound :
    {i : Interface} {q : Cq}
    → Linked i q
    → (r : ℕ) × (q.src_ring ≡ some r)
      × (((q.handler ≡ some process_tx_cq) × (r < length i.txqs))
          ⊎ ((q.handler ≡ some process_rx_cq) × (r < length i.rxqs)))
Linked-bound {i} (to_tx r t h s at a) = (r, s, inl (h, get_elem?-bound i.txqs r at))
Linked-bound {i} (to_rx r t h s at a) = (r, s, inr (h, get_elem?-bound i.rxqs r at))

-- A link is kept where the rings that were there still are.
pub Linked-more :
    {i i' : Interface} {q : Cq}
    → ((r : ℕ) (t : Txq) → get_elem? i.txqs r ≡ some t → get_elem? i'.txqs r ≡ some t)
    → ((r : ℕ) (t : Rxq) → get_elem? i.rxqs r ≡ some t → get_elem? i'.rxqs r ≡ some t)
    → Linked i q
    → Linked i' q
Linked-more tx rx (to_tx r t h s at a) = to_tx r t h s (tx r t at) a
Linked-more tx rx (to_rx r t h s at a) = to_rx r t h s (rx r t at) a

-- The link of a CQ that is there.
link-some :
    (cqs : List Cq) (p : ℕ) {k : Option Handler × Option ℕ}
    → link (get_elem? cqs p) ≡ some k
    → (q : Cq) × (get_elem? cqs p ≡ some q) × ((q.handler, q.src_ring) ≡ k)
link-some [] p h = absurd (cc)
link-some (q ∷ qs) zero h = (q, refl, same-some h)
link-some (q ∷ qs) (suc p) h = link-some qs p h

module _ {i : Interface} {packets : Packets} {other : ℕ → ℕ} {slack : ℕ} (q : Cq)
    (well : IsWell i packets other slack) where
  -- No CQ that is there has the link of a CQ whose ring is past the end.
  pub new_link :
      {h : Handler} {n : ℕ}
      → q.handler ≡ some h
      → q.src_ring ≡ some n
      → ((h ≡ process_tx_cq) × (n ≡ length i.txqs)) ⊎ ((h ≡ process_rx_cq) × (n ≡ length i.rxqs))
      → (p : ℕ) (k : Option Handler × Option ℕ) → link (get_elem? i.cqs p) ≡ some k
      → link (some q) ≢ some k
  new_link {h} {n} eh es past p k at e =
      let (z, there, same) = link-some i.cqs p at in
      let (r, src, side) = Linked-bound (well.cq_open p z there).1 in
      let rings : n ≡ r = cc in
      elim side [
        | inl (zh, below) ↦ elim past [ inl (_, at_end) ↦ omega arith | inr (hr, _) ↦ cc ]
        | inr (zh, below) ↦ elim past [ inl (ht, _) ↦ cc | inr (_, at_end) ↦ omega arith ]
      ]
