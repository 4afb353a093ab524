-- ===== src/Driver/Handler/Tests.antt =====
-- A driver of two interfaces: one is up and has an event, the other is down.
use schedra_nic.Prelude.{
  ℕ, zero, suc, ◌≡◌, subst, false, List, [], ◌∷◌, ◌++◌, some, arith, get_elem?, same-some,
}
use schedra_nic.Device.{ok, Write}
use schedra_nic.Struct.{Bytes}
use schedra_nic.Packets.{Packets}
use schedra_nic.Packets.Ownership.{Owns-agree}
use schedra_nic.Eq
use schedra_nic.Eq.{Eq}
use schedra_nic.Interface.{Interface}
use schedra_nic.Interface.Well.{IsEq}
use schedra_nic.Interface.Example.{interface, interface-IsWell}
use schedra_nic.Setup.Fresh.{fresh-IsEq}
use schedra_nic.Driver.Handler.{handle_interfaces}
use schedra_nic.Driver.Handler.Formed.{AreWell, IsFormed, IsWell-IsFormed}
use schedra_nic.Driver.Handler.All.{AllHandled, handle_interfaces_lem}
use schedra_nic.Sample.{packets}

abbrev second : Interface
second = record interface {
  port_up = false;
  eqs = Eq.opened 2 1024 0 0x1000 0 ∷ [];
  cqs = [];
  txqs = [];
}

second_eq : (p : ℕ) (eq : Eq) → get_elem? second.eqs p ≡ some eq → IsEq [] eq
second_eq zero eq h = subst (IsEq []) (same-some h) (fresh-IsEq [] 2 0 0x1000 0)
second_eq (suc p) eq h = absurd (cc)

second-IsFormed : IsFormed second
second-IsFormed = record {
  tx_open = λ r t h. absurd (cc);
  rx_open = λ r t h. absurd (cc);
  cq_open = λ p q h. absurd (cc);
  one_each = λ p p' k ne h. absurd (cc);
  eq_open = second_eq;
}

each-IsFormed :
    (k : ℕ) (i : Interface) → get_elem? (interface ∷ second ∷ []) k ≡ some i → IsFormed i
each-IsFormed zero i h = subst IsFormed (same-some h) (IsWell-IsFormed interface-IsWell)
each-IsFormed (suc zero) i h = subst IsFormed (same-some h) second-IsFormed
each-IsFormed (suc (suc k)) i h = absurd (cc)

both_well : AreWell (interface ∷ second ∷ []) packets (λ _. 0) 12
both_well = record {
  formed = each-IsFormed;
  owns = Owns-agree (λ j. omega arith) interface-IsWell.owns;
  enough = omega (arith, interface-IsWell.enough);
}

abbrev memory : Bytes
memory = λ _. 0

handle_interfaces_lem_example :
    (is' : List Interface) × (packets' : Packets) × (ws : List Write) × (handle_interfaces memory 2
        (interface ∷ second ∷ [])
        packets
        []
      ≡ ok (is', packets', [] ++ ws))
    × AllHandled memory 2 (interface ∷ second ∷ []) is' ws
    × AreWell is' packets' (λ _. 0) 12
handle_interfaces_lem_example =
    handle_interfaces_lem memory 2 (interface ∷ second ∷ []) packets [] (λ _. 0) 12 both_well
