-- ===== src/Lifecycle/OpenCq.antt =====
-- `cq = Cq(self); await cq.open(...); await cq.arm()` in `Interface.open`: the new CQ, and what it
-- leaves of the EQs.
use schedra_nic.Prelude.{
  ℕ, zero, suc, ◌-◌, ◌*◌, ◌%◌, ◌^◌, ◌<◌, ◌≡◌, inl, inr, refl, ◌∙◌, sym, subst, true, List, [], ◌∷◌,
  ◌++◌, Option, none, some, arith, length, get_elem?, set, ℕ_discrete, get_elem?_in_range,
  get_elem?-set_cases, length-set,
}
use native.Mathlib.Nat.{mod-lt}
use schedra_nic.Device.{ok, Write}
use schedra_nic.Regs.{mqnic_event_size}
use schedra_nic.Struct.{word, peek}
use schedra_nic.Resource.{Resource, get_window}
use schedra_nic.Resource.Stock.{Stocked, alloc-Stocked}
use schedra_nic.Packets.{Packets, alloc_region}
use schedra_nic.Drain.{is_empty}
use schedra_nic.Ring.{bit_length}
use schedra_nic.Eq.{Eq, attach_cq, cq_at}
use schedra_nic.Eq.Table.{attached}
use schedra_nic.Cq
use schedra_nic.Cq.{Cq, Handler, open_cq}
use schedra_nic.Cq.Completion.{IsCq, is_old}
use schedra_nic.Interface.{Interface, event_field}
use schedra_nic.Interface.Well.{IsEq, Names, link}
use schedra_nic.Lifecycle.{eq_for, open_one_cq}

-- A new EQ has a number.
abbrev pub Numbered : Eq → Type 0
Numbered eq = (n : ℕ) × (eq.eqn ≡ some n)

-- The CQ at a place is still there behind a new one.
link_old :
    (cqs : List Cq) (q : Cq) (p : ℕ) {k : Option Handler × Option ℕ}
    → link (get_elem? cqs p) ≡ some k
    → link (get_elem? (cqs ++ q ∷ []) p) ≡ some k
link_old [] q p h = absurd (cc)
link_old (x ∷ xs) q zero h = h
link_old (x ∷ xs) q (suc p) h = link_old xs q p h

link_new : (cqs : List Cq) (q : Cq) → link (get_elem? (cqs ++ q ∷ []) (length cqs)) ≡ link (some q)
link_new [] q = refl
link_new (x ∷ xs) q = link_new xs q

-- An EQ that another CQ is not attached to names what it named.
beside-IsEq : {cqs : List Cq} {eq : Eq} (q : Cq) → IsEq cqs eq → IsEq (cqs ++ q ∷ []) eq
beside-IsEq {cqs} q v = record {
  size = v.size;
  size_mask = v.size_mask;
  window = v.window;
  events = λ c l fresh. elim (v.events c l fresh) [
    | inl other ↦ inl other
    | inr (place, k, at, there) ↦ inr (place, k, at, link_old cqs q place there)
  ];
}

-- An EQ that the new CQ is attached to names it by its number, whatever had the number before, and
-- all other numbers name what they named.
attached-IsEq :
    {cqs : List Cq} {eq : Eq} (q : Cq) (cqn : ℕ)
    → IsEq cqs eq
    → IsEq (cqs ++ q ∷ []) (attach_cq cqn (length cqs) eq)
unfolding attach_cq event_field
attached-IsEq {cqs} {eq} q cqn v = record {
  size = v.size;
  size_mask = v.size_mask;
  window = v.window;
  events = λ c l fresh. elim (v.events c l fresh) [
    | inl other ↦ inl other
    | inr (place, k, at, there) ↦ renamed c place k at there
  ];
}
  where
    renamed :
        (c place : ℕ) (k : Option Handler × Option ℕ)
        → cq_at (event_field eq c 2) eq.cq_table ≡ ok place
        → link (get_elem? cqs place) ≡ some k
        → Names (cqs ++ q ∷ []) (attach_cq cqn (length cqs) eq) c
    renamed c place k at there = elim (ℕ_discrete (event_field eq c 2) cqn) [
      | yes same ↦ inr (
        length cqs,
        (q.handler, q.src_ring),
        subst (λ n. cq_at n (attach_cq cqn (length cqs) eq).cq_table ≡ ok (length cqs)) (sym same)
            (attached cqn (length cqs) eq).0,
        link_new cqs q,
      )
      | no other ↦ inr (
        place,
        k,
        (attached cqn (length cqs) eq).1 (event_field eq c 2) other ∙ at,
        link_old cqs q place there,
      )
    ]

-- All EQs, after one of them has got the new CQ.
eqs_with :
    (i : Interface) (q : Cq) (cqn e : ℕ) {eq : Eq}
    → ((p : ℕ) (z : Eq) → get_elem? i.eqs p ≡ some z → IsEq i.cqs z)
    → get_elem? i.eqs e ≡ some eq
    → (p : ℕ) (z : Eq) → get_elem? (set i.eqs e (attach_cq cqn (length i.cqs) eq)) p ≡ some z
    → IsEq (i.cqs ++ q ∷ []) z
eqs_with i q cqn e {eq} all at p z h =
    elim (get_elem?-set_cases i.eqs e p (attach_cq cqn (length i.cqs) eq) h) [
      | inl (_, same) ↦ subst (IsEq (i.cqs ++ q ∷ [])) same (attached-IsEq q cqn (all e eq at))
      | inr (_, old) ↦ beside-IsEq q (all p z old)
    ]

Numbered-with :
    (eqs : List Eq) (cqn place e : ℕ) {eq : Eq}
    → ((p : ℕ) (z : Eq) → get_elem? eqs p ≡ some z → Numbered z)
    → get_elem? eqs e ≡ some eq
    → (p : ℕ) (z : Eq) → get_elem? (set eqs e (attach_cq cqn place eq)) p ≡ some z
    → Numbered z
unfolding attach_cq
Numbered-with eqs cqn place e {eq} all at p z h =
    elim (get_elem?-set_cases eqs e p (attach_cq cqn place eq) h) [
      | inl (_, same) ↦ subst Numbered same (all e eq at)
      | inr (_, old) ↦ all p z old
    ]

-- The CQ that a call makes.
abbrev made : (cqn place window buf_dma : ℕ) → Cq
made cqn place window buf_dma = record {
  log_size = bit_length 1024 - 1;
  size = 2 ^ (bit_length 1024 - 1);
  size_mask = 2 ^ (bit_length 1024 - 1) - 1;
  stride = mqnic_event_size;
  cqn = some cqn;
  enabled = true;
  buf_size = 2 ^ (bit_length 1024 - 1) * mqnic_event_size;
  buf_dma = buf_dma;
  buf = λ _. 0;
  eq = some place;
  src_ring = none;
  handler = none;
  prod_ptr = 0;
  cons_ptr = 0;
  hw_regs = some window;
}

made_old : (cqn place window buf_dma : ℕ) → is_old (made cqn place window buf_dma) 0 ≡ true
unfolding is_empty word peek bit_length
made_old cqn place window buf_dma = refl

eq_for_lem :
    (k : ℕ) (eqs : List Eq) {eq : Eq}
    → 0 < length eqs
    → get_elem? eqs (k % length eqs) ≡ some eq
    → eq_for k eqs ≡ ok (k % length eqs, eq)
unfolding eq_for
eq_for_lem k eqs some_eq at = ground (arith, some_eq, at)

-- What the calls leave: a CQ that has nothing new, without a ring yet, and EQs that will be well
-- formed once the CQ stands behind the others, whatever its ring.
pub record NewCq (i : Interface) (n : ℕ) (q : Cq) (eqs : List Eq) (cq_res : Resource) : Type 0 where
  pub is_open : IsCq q
  pub idle : is_old q q.cons_ptr ≡ true
  pub cqn : (m : ℕ) × (q.cqn ≡ some m)
  pub eqs_well :
      (q' : Cq) (p : ℕ) (eq : Eq) → get_elem? eqs p ≡ some eq → IsEq (i.cqs ++ q' ∷ []) eq
  pub numbered : (p : ℕ) (eq : Eq) → get_elem? eqs p ≡ some eq → Numbered eq
  pub how_many : length eqs ≡ length i.eqs
  pub stocked : Stocked cq_res n

-- While a number is free and there are EQs, each with a number, a CQ opens for any queue.
pub open_one_cq_lem :
    (k n : ℕ) (i : Interface) (packets : Packets) (writes : List Write)
    → 0 < length i.eqs
    → ((p : ℕ) (eq : Eq) → get_elem? i.eqs p ≡ some eq → IsEq i.cqs eq)
    → ((p : ℕ) (eq : Eq) → get_elem? i.eqs p ≡ some eq → Numbered eq)
    → Stocked i.cq_res (suc n)
    → (q : Cq) × (eqs : List Eq) × (cq_res : Resource) × (writes' : List Write) × (open_one_cq k
          (i, packets, writes)
        ≡ ok (
          q,
          (
            record i { eqs = eqs; cqs = i.cqs ++ q ∷ []; cq_res = cq_res },
            record packets { pool = (alloc_region packets.pool).1 },
            writes',
          ),
        ))
      × NewCq i n q eqs cq_res
unfolding open_one_cq open_cq
open_one_cq_lem k n i packets writes some_eq eqs_well numbered stocked =
    let (cqn, res', a, rest) = alloc-Stocked stocked in
    let e : ℕ = k % length i.eqs in
    let (eq, at) = get_elem?_in_range i.eqs e (mod-lt k some_eq) in
    let (eqn, has_number) = numbered e eq at in
    (
      made cqn e (get_window cqn res').0 (alloc_region packets.pool).0,
      set i.eqs e (attach_cq cqn (length i.cqs) eq),
      (get_window cqn res').1,
      writes
          ++ Cq.open_writes (get_window cqn res').0 (alloc_region packets.pool).0
              (bit_length 1024 - 1) eqn
          ++ Cq.arm (made cqn e (get_window cqn res').0 (alloc_region packets.pool).0),
      rw (eq_for_lem k i.eqs some_eq at, a, has_number) refl,
      record {
        is_open = record {
          size = refl;
          size_mask = refl;
          window = ((get_window cqn res').0, refl);
        };
        idle = made_old cqn e (get_window cqn res').0 (alloc_region packets.pool).0;
        cqn = (cqn, refl);
        eqs_well = λ q' p z h. eqs_with i q' cqn e eqs_well at p z h;
        numbered = λ p z h. Numbered-with i.eqs cqn (length i.cqs) e numbered at p z h;
        how_many = length-set i.eqs e (attach_cq cqn (length i.cqs) eq);
        stocked = rest;
      },
    )
