-- ===== src/Interface/Events.antt =====
-- `Eq.process_eq` on a well-formed interface whose port is up.
use schedra_nic.Prelude.{
  ℕ, ◌+◌, ◌≤◌, ◌<◌, ◌≡◌, refl, ap, ◌∙◌, subst, sym, inl, inr, true, false, List, Option, ◌++◌, none,
  some, get_elem?, arith, ℕ_discrete,
}
use schedra_nic.Device.{ok}
use schedra_nic.Regs.{mqnic_event_type_cpl}
use schedra_nic.Struct.{Bytes}
use schedra_nic.Eq.{Eq, cq_at}
use schedra_nic.Cq
use schedra_nic.Cq.{Cq, Handler}
use schedra_nic.Interface.{Interface, Changed, dispatch, complete_event, event, event_field}
use schedra_nic.Interface.Well.{IsWell, link, IsEq, eq_old, AllFresh, Names}
use schedra_nic.Interface.Handlers.{Idle, Keeps, Keeps-all, Keeps-on, dispatch_lem}

-- The CQ that the event at a pointer names is idle.
abbrev pub Serves : Eq → ℕ → Interface → Type 0
Serves eq c i = (place : ℕ) × (cq_at (event_field eq c 2) eq.cq_table ≡ ok place) × Idle i place

-- A link is that of a CQ which is there.
link-some :
    (o : Option Cq) (k : Option Handler × Option ℕ) → link o ≡ some k → (q : Cq) × (o ≡ some q)
link-some none k e = absurd (cc)
link-some (some q) k e = (q, refl)

module _ (mem : Bytes) (eq : Eq) where
  completed :
      (number place : ℕ) (s : Changed) (s' : Changed) (q q' : Cq)
      → cq_at number eq.cq_table ≡ ok place
      → get_elem? s.0.cqs place ≡ some q
      → dispatch mem place q q.handler s.0 s.1 ≡ ok s'
      → get_elem? s'.0.cqs place ≡ some q'
      → complete_event mem eq number s ≡ ok (s'.0, s'.1, s.2 ++ s'.2 ++ Cq.arm q')
  unfolding complete_event
  completed number place (i, packets, writes) (i', packets', handled) q q' t at d at' =
      ground (arith, t, at, d, at')

  -- An event of a completion empties its CQ, and an event keeps the interface and its EQs.
  event_lem :
      {other : ℕ → ℕ} {slack : ℕ} (c : ℕ) (s : Changed)
      → IsWell s.0 s.1 other slack
      → s.0.port_up ≡ true
      → Names s.0.cqs eq c
      → (s' : Changed) × (event mem eq c s ≡ ok s')
        × (s'.0.eqs ≡ s.0.eqs)
        × Keeps mem other slack s.0 s'
        × (event_field eq c 0 ≡ mqnic_event_type_cpl → Serves eq c s'.0)
  unfolding event
  event_lem c s well up (inl type) =
      (s, ground (arith, type), refl, Keeps-all s well, λ e. absurd (type e))
  event_lem c s well up (inr (place, k, t, there)) =
      let (q, at) = link-some (get_elem? s.0.cqs place) k there in
      let (s', d, same, (q', at', old), keeps) = dispatch_lem well up mem place q at in
      let e = completed (event_field eq c 2) place s s' q q' t at d at' in
      elim (ℕ_discrete (event_field eq c 0) mqnic_event_type_cpl) [
        | yes cpl ↦ (
          (s'.0, s'.1, s.2 ++ s'.2 ++ Cq.arm q'),
          ground (arith, cpl, e),
          same,
          record {
            well = keeps.well;
            port_up = keeps.port_up;
            links = keeps.links;
            idle = keeps.idle;
            received = keeps.received;
          },
          λ _. (place, t, (q', at', old)),
        )
        | no type ↦ (s, ground (arith, type), refl, Keeps-all s well, λ e. absurd (type e))
      ]

-- The loop's state at a pointer.
pub record Mid (mem : Bytes) (other : ℕ → ℕ) (slack : ℕ) (i : Interface) (eq : Eq) (c : ℕ)
    (s : Changed) : Type 0 where
  pub from : eq.cons_ptr ≤ c
  pub keeps : Keeps mem other slack i s
  pub same : s.0.eqs ≡ i.eqs
  pub fresh : (d : ℕ) → eq.cons_ptr ≤ d → d < c → eq_old eq d ≡ false
  pub served :
      (d : ℕ)
      → eq.cons_ptr ≤ d
      → d < c
      → event_field eq d 0 ≡ mqnic_event_type_cpl
      → Serves eq d s.0

Names-kept :
    (cqs cqs' : List Cq) (eq : Eq) (c : ℕ)
    → ((x : ℕ) → link (get_elem? cqs' x) ≡ link (get_elem? cqs x))
    → Names cqs eq c
    → Names cqs' eq c
Names-kept cqs cqs' eq c same (inl other) = inl other
Names-kept cqs cqs' eq c same (inr (place, k, t, there)) = inr (place, k, t, same place ∙ there)

pub event_step :
    {other : ℕ → ℕ} {slack : ℕ} (mem : Bytes) (i : Interface) (eq : Eq)
    → IsEq i.cqs eq
    → i.port_up ≡ true
    → (c : ℕ) (s : Changed) → Mid mem other slack i eq c s
    → eq_old eq c ≡ false
    → (s' : Changed) × (event mem eq c s ≡ ok s') × Mid mem other slack i eq (c + 1) s'
event_step mem i eq v up c s m new =
    let all : AllFresh eq eq.cons_ptr c = λ k l u. elim (ℕ_discrete k c) [
      | yes e ↦ ap (eq_old eq) e ∙ new
      | no ne ↦ m.fresh k l (omega arith)
    ] in
    let (s', e, same, keeps, serves) =
      event_lem mem eq c s m.keeps.well (m.keeps.port_up ∙ up)
        (Names-kept i.cqs s.0.cqs eq c m.keeps.links (v.events c m.from all)) in
    (
      s',
      e,
      record {
        from = omega (arith, m.from);
        keeps = Keeps-on i s s' m.keeps keeps;
        same = same ∙ m.same;
        fresh = λ k l u. all k l (omega arith);
        served = λ d l u type. elim (ℕ_discrete d c) [
          | yes e ↦
              subst (λ x. Serves eq x s'.0) (sym e)
                (serves (ap (λ x. event_field eq x 0) (sym e) ∙ type))
          | no ne ↦
              let (place, t, idle) = m.served d l (omega arith) type in
              (place, t, keeps.idle place idle)
        ];
      },
    )
