-- ===== src/Interface/Handlers.antt =====
-- `cq.handler(cq)` on a well-formed interface whose port is up.
use schedra_nic.Prelude.{
  ℕ, ◌+◌, ◌≤◌, ◌≡◌, refl, ap, ◌∙◌, sym, true, List, [], ◌++◌, some, get_elem?, set, arith,
  total_mono, total-others, get_elem?-set_here, get_elem?-set_ne, ℕ_discrete,
}
use mathlib.Core.List.{append-nil, append_assoc}
use schedra_nic.Device.{ok}
use schedra_nic.Struct.{Bytes}
use schedra_nic.Packets.{Packets}
use schedra_nic.Packets.Ownership.{available}
use schedra_nic.Ring.Occupancy.{occupied, occupied-length}
use schedra_nic.Cq.{Cq, process_tx_cq, process_rx_cq}
use schedra_nic.Cq.Completion.{is_old}
use schedra_nic.Txq
use schedra_nic.Txq.{Txq, process_tx_cq_of}
use schedra_nic.Txq.Transmit
use schedra_nic.Txq.Complete.{process_tx_cq_lem}
use schedra_nic.Rxq
use schedra_nic.Rxq.{Rxq, Packet, process_rx_cq_of}
use schedra_nic.Rxq.Refill
use schedra_nic.Rxq.Receive.{process_rx_cq_lem}
use schedra_nic.Interface.{Interface, Changed, dispatch}
use schedra_nic.Interface.Well.{IsWell, Linked, to_tx, to_rx, link}
use schedra_nic.Interface.Cqs.{moved-is_old}
use schedra_nic.Interface.Arrivals.{Arrived, none_came, from_rx, from_tx, and_then-Arrived}
use schedra_nic.Interface.TxServed
use schedra_nic.Interface.RxServed

-- The CQ at a place has no new completion.
abbrev pub Idle : Interface → ℕ → Type 0
Idle i p = (q : Cq) × (get_elem? i.cqs p ≡ some q) × (is_old q q.cons_ptr ≡ true)

-- What the handlers leave of the interface: it is well formed, no link has changed, an idle CQ is
-- idle, and to the queue of received packets exactly those were appended that arrived.
pub record Keeps (mem : Bytes) (other : ℕ → ℕ) (slack : ℕ) (i : Interface) (s : Changed)
    : Type 0 where
  pub well : IsWell s.0 s.1 other slack
  pub port_up : s.0.port_up ≡ i.port_up
  pub links : (x : ℕ) → link (get_elem? s.0.cqs x) ≡ link (get_elem? i.cqs x)
  pub idle : (x : ℕ) → Idle i x → Idle s.0 x
  pub received :
      (skbs : List Packet) × (s.0.rx.pkt_rx_queue ≡ i.rx.pkt_rx_queue ++ skbs)
      × Arrived mem i.cqs s.0.cqs skbs

pub Keeps-all :
    {mem : Bytes} {other : ℕ → ℕ} {slack : ℕ} (s : Changed)
    → IsWell s.0 s.1 other slack
    → Keeps mem other slack s.0 s
Keeps-all s w = record {
  well = w;
  port_up = refl;
  links = λ x. refl;
  idle = λ x h. h;
  received = ([], sym (append-nil s.0.rx.pkt_rx_queue), none_came);
}

pub Keeps-on :
    {mem : Bytes} {other : ℕ → ℕ} {slack : ℕ} (i : Interface) (s s' : Changed)
    → Keeps mem other slack i s
    → Keeps mem other slack s.0 s'
    → Keeps mem other slack i s'
Keeps-on i s s' a b = record {
  well = b.well;
  port_up = b.port_up ∙ a.port_up;
  links = λ x. b.links x ∙ a.links x;
  idle = λ x h. b.idle x (a.idle x h);
  received =
      let (skbs, e, c) = a.received in
      let (skbs', e', c') = b.received in
      (
        skbs ++ skbs',
        e' ∙ ap (λ l. l ++ skbs') e ∙ append_assoc i.rx.pkt_rx_queue skbs skbs',
        and_then-Arrived (skbs ++ skbs') c c' refl,
      );
}

-- A CQ in the place of another leaves the idle ones idle, if it is.
stays_idle :
    (l : List Cq) (p : ℕ) {q : Cq} (q' : Cq)
    → get_elem? l p ≡ some q
    → is_old q' q'.cons_ptr ≡ true
    → (x : ℕ) → (z : Cq) × (get_elem? l x ≡ some z) × (is_old z z.cons_ptr ≡ true)
    → (z : Cq) × (get_elem? (set l p q') x ≡ some z) × (is_old z z.cons_ptr ≡ true)
stays_idle l p q' h old x (z, at, o) = elim (ℕ_discrete p x) [
  | yes e ↦ (q', ap (get_elem? (set l p q')) (sym e) ∙ get_elem?-set_here l p q' h, old)
  | no ne ↦ (z, get_elem?-set_ne l q' ne ∙ at, o)
]

tx_dispatched :
    (mem : Bytes) (p : ℕ) (q : Cq) (i : Interface) (packets : Packets) (r : ℕ) {t : Txq}
    {res : Txq.Processed}
    → q.src_ring ≡ some r
    → get_elem? i.txqs r ≡ some t
    → process_tx_cq_of i.port_up q t packets ≡ ok res
    → dispatch mem p q (some process_tx_cq) i packets
      ≡ ok (
        record i { cqs = set i.cqs p res.cq; txqs = set i.txqs r res.txq },
        res.packets,
        res.writes,
      )
unfolding dispatch
tx_dispatched mem p q i packets r s ring e = ground (arith, s, ring, e)

rx_dispatched :
    (mem : Bytes) (p : ℕ) (q : Cq) (i : Interface) (packets : Packets) (r : ℕ) {t : Rxq}
    {res : Rxq.Processed}
    → q.src_ring ≡ some r
    → get_elem? i.rxqs r ≡ some t
    → process_rx_cq_of i.port_up mem q t packets i.rx ≡ ok res
    → dispatch mem p q (some process_rx_cq) i packets
      ≡ ok (
        record i { cqs = set i.cqs p res.cq; rxqs = set i.rxqs r res.rxq; rx = res.rx },
        res.packets,
        res.writes,
      )
unfolding dispatch
rx_dispatched mem p q i packets r s ring e = ground (arith, s, ring, e)

module _ {i : Interface} {packets : Packets} {other : ℕ → ℕ} {slack : ℕ}
    (well : IsWell i packets other slack) where
  pub tx_in_ring : (r : ℕ) (t : Txq) → get_elem? i.txqs r ≡ some t → occupied t.tx_info ≤ t.size
  tx_in_ring r t h =
      let o : Transmit.IsOpen t = well.tx_open r t h in
      omega (arith, occupied-length t.tx_info, o.ring.slots, o.size)

  pub rx_in_ring : (r : ℕ) (t : Rxq) → get_elem? i.rxqs r ≡ some t → occupied t.rx_info ≤ t.size
  rx_in_ring r t h =
      let o : Refill.IsOpen t = well.rx_open r t h in
      omega (arith, occupied-length t.rx_info, o.ring.slots, o.size)

  -- There are buffers for the ring of any receive queue.
  pub enough_for :
      (r : ℕ) {t : Rxq}
      → get_elem? i.rxqs r ≡ some t
      → t.size ≤ available packets + occupied t.rx_info
  enough_for r {t} h = omega (
    arith,
    well.enough,
    total_mono (λ (t : Txq). occupied t.tx_info) (λ (t : Txq). t.size) i.txqs tx_in_ring,
    total-others (λ (t : Rxq). occupied t.rx_info) (λ (t : Rxq). t.size) i.rxqs r rx_in_ring h,
  )

  module _ (up : i.port_up ≡ true) where
    dispatch-Linked :
        (mem : Bytes) (p : ℕ) (q : Cq)
        → get_elem? i.cqs p ≡ some q
        → Linked i q
        → (s : Changed) × (dispatch mem p q q.handler i packets ≡ ok s)
          × (s.0.eqs ≡ i.eqs)
          × Idle s.0 p
          × Keeps mem other slack i s
    unfolding process_tx_cq_of process_rx_cq_of
    dispatch-Linked mem p q cq (to_tx r t h source ring a) =
        let (res, e, done) =
          process_tx_cq_lem (well.tx_open r t ring) (well.cq_open p q cq).0
            (TxServed.beside-Owns well r ring) a in
        let old : is_old res.cq res.cq.cons_ptr ≡ true =
          moved-is_old q res.cq done.same_cq res.cq.cons_ptr done.at_old in
        (
          (TxServed.served well r ring p cq h source res done, res.packets, res.writes),
          ap (λ k. dispatch mem p q k i packets) h
              ∙ tx_dispatched mem p q i packets r source ring (rw up e),
          refl,
          (res.cq, get_elem?-set_here i.cqs p res.cq cq, old),
          record {
            well = TxServed.tx_served-IsWell well r ring p cq h source res done;
            port_up = refl;
            links = TxServed.served-links well r ring p cq h source res done;
            idle = stays_idle i.cqs p res.cq cq old;
            received = (
              [],
              sym (append-nil i.rx.pkt_rx_queue),
              from_tx p q res.cq i.cqs (set i.cqs p res.cq) [] none_came cq h done.same_cq refl,
            );
          },
        )
    dispatch-Linked mem p q cq (to_rx r t h source ring a) =
        let (res, e, done) =
          process_rx_cq_lem (well.rx_open r t ring) (well.cq_open p q cq).0 mem i.rx
            (RxServed.beside-Owns well r ring) a (enough_for r ring) in
        let old : is_old res.cq res.cq.cons_ptr ≡ true =
          moved-is_old q res.cq done.same_cq res.cq.cons_ptr done.at_old in
        (
          (RxServed.served well r ring mem p cq h source res done, res.packets, res.writes),
          ap (λ k. dispatch mem p q k i packets) h
              ∙ rx_dispatched mem p q i packets r source ring (rw up e),
          refl,
          (res.cq, get_elem?-set_here i.cqs p res.cq cq, old),
          record {
            well = RxServed.rx_served-IsWell well r ring mem p cq h source res done;
            port_up = refl;
            links = RxServed.served-links well r ring mem p cq h source res done;
            idle = stays_idle i.cqs p res.cq cq old;
            received = (
              done.skbs,
              done.queued,
              from_rx t p q res.cq i.cqs (set i.cqs p res.cq) [] done.skbs done.skbs none_came cq h
                  done.same_cq done.delivered refl refl,
            );
          },
        )

    -- The handler of a CQ that is there returns: it raises nothing, empties the CQ and keeps the
    -- interface.
    pub dispatch_lem :
        (mem : Bytes) (p : ℕ) (q : Cq)
        → get_elem? i.cqs p ≡ some q
        → (s : Changed) × (dispatch mem p q q.handler i packets ≡ ok s)
          × (s.0.eqs ≡ i.eqs)
          × Idle s.0 p
          × Keeps mem other slack i s
    dispatch_lem mem p q cq = dispatch-Linked mem p q cq (well.cq_open p q cq).1
