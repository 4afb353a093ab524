-- ===== src/Interface/Example.antt =====
-- An interface of one transmit queue, whose first packet the device has completed and announced.
use schedra_nic.Prelude.{
  ℕ, zero, suc, ◌≡◌, inr, subst, refl, true, false, [], ◌∷◌, Option, some, ◌==◌, if◌then◌else◌,
  arith, get_elem?,
}
use schedra_nic.Struct.{word, peek}
use schedra_nic.Resource
use schedra_nic.Packets.Ownership.{Owns-agree}
use schedra_nic.Drain.{is_empty}
use schedra_nic.Eq
use schedra_nic.Eq.{Eq, cq_at}
use schedra_nic.Cq.{Cq, Handler, process_tx_cq, completed_index}
use schedra_nic.Cq.Completion.{Answers, IsCq}
use schedra_nic.Txq.{Txq}
use schedra_nic.Txq.Transmit
use schedra_nic.Interface.{Interface, event_field}
use schedra_nic.Interface.Well.{IsWell, Linked, to_tx, link, IsEq, eq_old, AllFresh}
use schedra_nic.Sample.{packets, packets-Owns, slots, cq, cq-Answers, txq, txq-IsOpen}

-- The CQ of the sample, with its ring and handler.
abbrev pub tx_cq : Cq
tx_cq = record cq { src_ring = some 0; handler = some process_tx_cq }

-- An EQ of one entry, whose event announces the CQ of number 5.
abbrev pub eq : Eq
eq = record Eq.new {
  size = 1;
  stride = 32;
  eqn = some 0;
  irq = some 2;
  enabled = true;
  cq_table = (5, 0) ∷ [];
  buf = λ b. if b == 31 then 0x80 else if b == 2 then 5 else 0;
  hw_regs = some 0x1000;
}

abbrev pub interface : Interface
interface = record {
  port_up = true;
  eq_res = Resource.new 1 0x1000 32;
  cq_res = Resource.new 8 0x3000 32;
  txq_res = Resource.new 4 0x2000 32;
  rxq_res = Resource.new 4 0x4000 32;
  eqs = eq ∷ [];
  cqs = tx_cq ∷ [];
  txqs = txq ∷ [];
  rxqs = [];
  rx = record { pkt_rx_queue = []; pkt_rx_sync = false };
}

tx_cq-Answers : Answers tx_cq 2 3 1 0 0 slots
unfolding completed_index
tx_cq-Answers = record { holds_packet = cq-Answers.holds_packet; apart = cq-Answers.apart }

tx_cq-IsCq : IsCq tx_cq
tx_cq-IsCq = record { size = refl; size_mask = refl; window = (0x3000, refl) }

eq_old_next : eq_old eq 1 ≡ true
unfolding is_empty word peek
eq_old_next = refl

first_event : (c : ℕ) → AllFresh eq 0 c → c ≡ 0
first_event zero all = refl
first_event (suc c) all = absurd (ground (arith, all 1 (omega arith) (omega arith), eq_old_next))

eq-IsEq : IsEq (tx_cq ∷ []) eq
unfolding event_field word peek cq_at
eq-IsEq = record {
  size = refl;
  size_mask = refl;
  window = (0x1000, refl);
  events = λ c l all. rw (first_event c all) (inr (0, (some process_tx_cq, some 0), refl, refl));
}

only_cq : (p : ℕ) (k : Option Handler × Option ℕ) → link (get_elem? (tx_cq ∷ []) p) ≡ some k → p ≡ 0
only_cq zero k e = refl
only_cq (suc p) k e = absurd (cc)

open_tx : (r : ℕ) (t : Txq) → get_elem? (txq ∷ []) r ≡ some t → txq ≡ t
open_tx zero t e = cc
open_tx (suc r) t e = absurd (cc)

this_cq : (p : ℕ) (q : Cq) → get_elem? (tx_cq ∷ []) p ≡ some q → tx_cq ≡ q
this_cq zero q e = cc
this_cq (suc p) q e = absurd (cc)

this_eq : (p : ℕ) (z : Eq) → get_elem? (eq ∷ []) p ≡ some z → eq ≡ z
this_eq zero z e = cc
this_eq (suc p) z e = absurd (cc)

pub interface-IsWell : IsWell interface packets (λ _. 0) 12
interface-IsWell = record {
  tx_open = λ r t e. subst Transmit.IsOpen (open_tx r t e) txq-IsOpen;
  rx_open = λ r t e. absurd (cc);
  cq_open = λ p q e.
      subst (λ z. IsCq z × Linked interface z) (this_cq p q e)
        (tx_cq-IsCq, to_tx 0 txq refl refl refl tx_cq-Answers);
  one_each = λ p p' k ne e f. absurd (ne (omega (arith, only_cq p k e, only_cq p' k f)));
  eq_open = λ p z e. subst (IsEq (tx_cq ∷ [])) (this_eq p z e) eq-IsEq;
  owns = Owns-agree (λ j. omega arith) packets-Owns;
  enough = omega arith;
}
