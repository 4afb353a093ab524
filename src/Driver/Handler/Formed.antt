-- ===== src/Driver/Handler/Formed.antt =====
-- What makes an interface well formed beside the packet buffers, and what the buffers of several
-- interfaces have in common.
use schedra_nic.Prelude.{
  ℕ, zero, suc, subst, same-some, ◌+◌, ◌-◌, ◌≤◌, ◌≡◌, ◌≢◌, refl, List, ◌∷◌, Option, some, arith,
  get_elem?, total, total_mono,
}
use schedra_nic.Packets.{Packets}
use schedra_nic.Packets.Ownership.{Owns, Owns-agree, available}
use schedra_nic.Ring.Occupancy.{occupied, occupied-length}
use schedra_nic.Eq.{Eq}
use schedra_nic.Cq.{Cq, Handler}
use schedra_nic.Cq.Completion.{IsCq}
use schedra_nic.Txq.{Txq}
use schedra_nic.Txq.Transmit
use schedra_nic.Rxq.{Rxq}
use schedra_nic.Rxq.Refill
use schedra_nic.Interface.{Interface}
use schedra_nic.Interface.Well.{IsWell, IsEq, Linked, link, held_by, in_rings, ring_sizes}

-- `IsWell` without the packet buffers.
pub record IsFormed (i : Interface) : Type 0 where
  pub tx_open : (r : ℕ) (t : Txq) → get_elem? i.txqs r ≡ some t → Transmit.IsOpen t
  pub rx_open : (r : ℕ) (t : Rxq) → get_elem? i.rxqs r ≡ some t → Refill.IsOpen t
  pub cq_open : (p : ℕ) (q : Cq) → get_elem? i.cqs p ≡ some q → IsCq q × Linked i q
  pub one_each :
      (p p' : ℕ) (k : Option Handler × Option ℕ)
      → p ≢ p'
      → link (get_elem? i.cqs p) ≡ some k
      → link (get_elem? i.cqs p') ≢ some k
  pub eq_open : (p : ℕ) (eq : Eq) → get_elem? i.eqs p ≡ some eq → IsEq i.cqs eq

pub IsWell-IsFormed :
    {i : Interface} {packets : Packets} {other : ℕ → ℕ} {slack : ℕ}
    → IsWell i packets other slack
    → IsFormed i
IsWell-IsFormed w = record {
  tx_open = w.tx_open;
  rx_open = w.rx_open;
  cq_open = w.cq_open;
  one_each = w.one_each;
  eq_open = w.eq_open;
}

-- A well-formed interface holds no more buffers than its rings have descriptors.
pub in_rings-le : {i : Interface} → IsFormed i → in_rings i ≤ ring_sizes i
in_rings-le {i} f = omega (
  arith,
  total_mono (λ (t : Txq). occupied t.tx_info) (λ (t : Txq). t.size) i.txqs
      (λ r t h.
        let o : Transmit.IsOpen t = f.tx_open r t h in
        omega (arith, occupied-length t.tx_info, o.ring.slots, o.size)),
  total_mono (λ (t : Rxq). occupied t.rx_info) (λ (t : Rxq). t.size) i.rxqs
      (λ r t h.
        let o : Refill.IsOpen t = f.rx_open r t h in
        omega (arith, occupied-length t.rx_info, o.ring.slots, o.size)),
)

-- The interfaces of a driver: each is well formed, each buffer is in one place of all, and there
-- are buffers for all rings of all.
pub record AreWell (is : List Interface) (packets : Packets) (other : ℕ → ℕ) (slack : ℕ)
    : Type 0 where
  pub formed : (k : ℕ) (i : Interface) → get_elem? is k ≡ some i → IsFormed i
  pub owns : Owns packets (λ j. other j + total (λ i. held_by i j) is)
  pub enough : total ring_sizes is + slack ≤ available packets + total in_rings is

-- What the other interfaces hold and need.
abbrev pub others_hold : List Interface → (ℕ → ℕ) → ℕ → ℕ
others_hold is other j = other j + total (λ i. held_by i j) is

abbrev pub others_need : List Interface → ℕ → ℕ
others_need is slack = slack + (total ring_sizes is - total in_rings is)

pub rings_le :
    (is : List Interface)
    → ((k : ℕ) (i : Interface) → get_elem? is k ≡ some i → IsFormed i)
    → total in_rings is ≤ total ring_sizes is
rings_le is f = total_mono in_rings ring_sizes is (λ k i h. in_rings-le (f k i h))

-- The first interface, among the others.
pub first-IsWell :
    (i : Interface) (is : List Interface) {packets : Packets} {other : ℕ → ℕ} {slack : ℕ}
    → AreWell (i ∷ is) packets other slack
    → IsWell i packets (others_hold is other) (others_need is slack)
first-IsWell i is w =
    let f = w.formed 0 i refl in
    record {
      tx_open = f.tx_open;
      rx_open = f.rx_open;
      cq_open = f.cq_open;
      one_each = f.one_each;
      eq_open = f.eq_open;
      owns = Owns-agree (λ j. omega arith) w.owns;
      enough = omega (arith, w.enough, rings_le is (λ k z h. w.formed (suc k) z h));
    }

-- The others, beside the first.
pub rest-AreWell :
    (i : Interface) (is : List Interface) {packets : Packets} (other : ℕ → ℕ) (slack : ℕ)
    → ((k : ℕ) (z : Interface) → get_elem? is k ≡ some z → IsFormed z)
    → IsWell i packets (others_hold is other) (others_need is slack)
    → AreWell is packets (λ j. other j + held_by i j) (slack + (ring_sizes i - in_rings i))
rest-AreWell i is other slack f w = record {
  formed = f;
  owns = Owns-agree (λ j. omega arith) w.owns;
  enough = omega (arith, w.enough, rings_le is f, in_rings-le (IsWell-IsFormed w));
}

-- Together again.
pub both-AreWell :
    (i : Interface) (is : List Interface) {packets : Packets} {other : ℕ → ℕ} {slack : ℕ}
    → IsFormed i
    → AreWell is packets (λ j. other j + held_by i j) (slack + (ring_sizes i - in_rings i))
    → AreWell (i ∷ is) packets other slack
both-AreWell i is {packets} {other} {slack} f w = record {
  formed = λ k z h. each k z h;
  owns = Owns-agree (λ j. omega arith) w.owns;
  enough = omega (arith, w.enough, in_rings-le f);
}
  where
    each : (k : ℕ) (z : Interface) → get_elem? (i ∷ is) k ≡ some z → IsFormed z
    each zero z h = subst IsFormed (same-some h) f
    each (suc k) z h = w.formed k z h
