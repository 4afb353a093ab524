-- ===== src/Interface/EqServed.antt =====
-- `Eq.process_eq`: what it has done when it returns.
use schedra_nic.Prelude.{
  ℕ, ◌+◌, ◌≤◌, ◌<◌, ◌≡◌, ◌≢◌, refl, ap, ◌∙◌, subst, inl, inr, true, false, List, [], ◌++◌, some,
  get_elem?, set, arith, get_elem?-set_here, get_elem?-set_ne, get_elem?-set_cases,
}
use schedra_nic.Device.{ok, Write}
use schedra_nic.Regs.{mqnic_event_type_cpl}
use schedra_nic.Struct.{Bytes}
use schedra_nic.Packets.{Packets}
use schedra_nic.Drain.Phase.{empty_within_round}
use schedra_nic.Drain.Rounds.{drain_lem}
use schedra_nic.Eq.{Eq, write_cons_ptr}
use schedra_nic.Cq.{Cq}
use schedra_nic.Interface.{Interface, Changed, event, event_field, process_eq}
use schedra_nic.Interface.Well.{IsWell, Linked, to_tx, to_rx, IsEq, eq_old}
use schedra_nic.Interface.Handlers.{Keeps, Keeps-all}
use schedra_nic.Interface.Events.{Serves, Mid, event_step}

-- An EQ in the place of another concerns neither queues nor CQs.
eq_replaced-IsWell :
    {i : Interface} {packets : Packets} {other : ℕ → ℕ} {slack : ℕ} (p : ℕ) (eq : Eq)
    → IsWell i packets other slack
    → IsEq i.cqs eq
    → IsWell (record i { eqs = set i.eqs p eq }) packets other slack
eq_replaced-IsWell {i} p eq well v = record {
  tx_open = well.tx_open;
  rx_open = well.rx_open;
  cq_open = λ x q h. ((well.cq_open x q h).0, still_linked q (well.cq_open x q h).1);
  one_each = well.one_each;
  eq_open = λ x z h. elim (get_elem?-set_cases i.eqs p x eq h) [
    | inl (_, e) ↦ subst (IsEq i.cqs) e v
    | inr (_, g) ↦ well.eq_open x z g
  ];
  owns = well.owns;
  enough = well.enough;
}
  where
    still_linked : (q : Cq) → Linked i q → Linked (record i { eqs = set i.eqs p eq }) q
    still_linked q (to_tx r t h s at a) = to_tx r t h s at a
    still_linked q (to_rx r t h s at a) = to_rx r t h s at a

-- A pointer to an old event has no events before it.
moved-IsEq :
    (cqs : List Cq) (eq : Eq) (c : ℕ)
    → IsEq cqs eq
    → eq_old eq c ≡ true
    → IsEq cqs (record eq { cons_ptr = c })
moved-IsEq cqs eq c v old = record {
  size = v.size;
  size_mask = v.size_mask;
  window = v.window;
  events = λ d l fresh. absurd (ground (arith, old, fresh c (omega arith) l));
}

-- What process_eq has done: it has consumed the events up to the first old one, at most one round
-- of the EQ; each CQ that one of them announced is idle; the pointer has been written to the device
-- last; no other EQ has changed, and the interface is kept.
pub record EventsServed (mem : Bytes) (other : ℕ → ℕ) (slack : ℕ) (i : Interface) (place : ℕ)
    (eq : Eq) (s : Changed) : Type 0 where
  pub keeps : Keeps mem other slack i s
  pub cons_ptr : ℕ
  pub eq_at : get_elem? s.0.eqs place ≡ some (record eq { cons_ptr = cons_ptr })
  pub others : (p : ℕ) → place ≢ p → get_elem? s.0.eqs p ≡ get_elem? i.eqs p
  pub before : List Write
  pub published : List Write
  pub is_published : write_cons_ptr (record eq { cons_ptr = cons_ptr }) ≡ ok published
  pub writes : s.2 ≡ before ++ published
  pub forward : eq.cons_ptr ≤ cons_ptr
  pub one_round : cons_ptr ≤ eq.cons_ptr + eq.size
  pub at_old : eq_old eq cons_ptr ≡ true
  pub consumed : (d : ℕ) → eq.cons_ptr ≤ d → d < cons_ptr → eq_old eq d ≡ false
  pub served :
      (d : ℕ)
      → eq.cons_ptr ≤ d
      → d < cons_ptr
      → event_field eq d 0 ≡ mqnic_event_type_cpl
      → Serves eq d s.0

-- On a well-formed interface whose port is up, process_eq of an EQ that is there raises nothing,
-- ends, and has done what EventsServed says.
pub process_eq_lem :
    {i : Interface} {packets : Packets} {other : ℕ → ℕ} {slack : ℕ} (mem : Bytes) (place : ℕ)
    {eq : Eq}
    → IsWell i packets other slack
    → i.port_up ≡ true
    → get_elem? i.eqs place ≡ some eq
    → (s : Changed) × (process_eq mem place i packets ≡ ok s)
      × EventsServed mem other slack i place eq s
unfolding process_eq
process_eq_lem {i} {packets} {other} {slack} mem place {eq} well up at =
    let v = well.eq_open place eq at in
    let (n, le, e) =
      empty_within_round eq.buf eq.log_size eq.size eq.size_mask eq.stride v.size v.size_mask
        eq.cons_ptr in
    let (c, s, d, bound, drained) =
      drain_lem (Mid mem other slack i eq) (eq_old eq) (event mem eq) (event_step mem i eq v up)
        eq.size n eq.cons_ptr (i, packets, []) e le
        (record {
          from = omega arith;
          keeps = Keeps-all (i, packets, []) well;
          same = refl;
          fresh = λ k l u. absurd (omega arith);
          served = λ k l u _. absurd (omega arith);
        }) in
    let m = drained.holds_at_end in
    let (ws, w) = published c (v.window.0) v.window.1 in
    let at' : get_elem? s.0.eqs place ≡ some eq = ap (λ l. get_elem? l place) m.same ∙ at in
    let v' = (m.keeps.well).eq_open place eq at' in
    (
      (record s.0 { eqs = set s.0.eqs place (record eq { cons_ptr = c }) }, s.1, s.2 ++ ws),
      ground (arith, up, at, d, w),
      record {
        keeps = record {
          well =
              eq_replaced-IsWell place (record eq { cons_ptr = c }) m.keeps.well
                (moved-IsEq s.0.cqs eq c v' drained.at_end);
          port_up = m.keeps.port_up;
          links = m.keeps.links;
          idle = m.keeps.idle;
          received = m.keeps.received;
        };
        cons_ptr = c;
        eq_at = get_elem?-set_here s.0.eqs place (record eq { cons_ptr = c }) at';
        others = λ p ne.
            get_elem?-set_ne s.0.eqs (record eq { cons_ptr = c }) ne
            ∙ ap (λ l. get_elem? l p) m.same;
        before = s.2;
        published = ws;
        is_published = w;
        writes = refl;
        forward = drained.forward;
        one_round = omega (arith, bound, le);
        at_old = drained.at_end;
        consumed = drained.consumed;
        served = m.served;
      },
    )
  where
    published :
        (c w : ℕ)
        → eq.hw_regs ≡ some w
        → (ws : List Write) × (write_cons_ptr (record eq { cons_ptr = c }) ≡ ok ws)
    published c w h = unfold write_cons_ptr in rw h (_, refl)
