-- ===== src/Lifecycle/Tests.antt =====
-- An interface with one queue, that is closed, and one without queues, that is opened.
use schedra_nic.Prelude.{
  ℕ, zero, suc, ◌+◌, ◌*◌, ◌≤◌, ◌≡◌, ◌≢◌, ◌⊎◌, refl, subst, true, false, [], ◌∷◌, ◌++◌, some, arith,
  length, get_elem?, same-some,
}
use schedra_nic.Device.{ok}
use schedra_nic.Resource
use schedra_nic.Resource.{get_count}
use schedra_nic.Resource.Laws.{new_lem}
use schedra_nic.Resource.Stock.{Stocked}
use schedra_nic.Packets.{Packets}
use schedra_nic.Packets.Ownership.{Owns}
use schedra_nic.Eq
use schedra_nic.Eq.{Eq}
use schedra_nic.Port.{set_tx_ctrl, set_rx_ctrl}
use schedra_nic.Interface.{Interface, Changed}
use schedra_nic.Interface.Well.{IsEq}
use schedra_nic.Setup.Init.{Initialised, init_interface}
use schedra_nic.Setup.Fresh.{fresh-IsEq}
use schedra_nic.Setup.Built.{no_queues-IsWell}
use schedra_nic.Setup.Example.{port, registers, present}
use schedra_nic.Lifecycle.Opening.{Openable}
use schedra_nic.Lifecycle.Open.{Up, open_interface_lem, open-init_interface, rxqs_of, txqs_of}
use schedra_nic.Lifecycle.{close_interface, open_interface}
use schedra_nic.Lifecycle.Close.{close_interface_lem}
use schedra_nic.Sample.{packets, txq}

abbrev interface : Interface
interface = record {
  port_up = true;
  eq_res = Resource.new 1 0x1000 32;
  cq_res = Resource.new 8 0x3000 32;
  txq_res = Resource.new 4 0x2000 32;
  rxq_res = Resource.new 4 0x4000 32;
  eqs = [];
  cqs = [];
  txqs = txq ∷ [];
  rxqs = [];
  rx = record { pkt_rx_queue = []; pkt_rx_sync = false };
}

close_interface_lem_example :
    ((interface.txqs ≡ [])
      × (interface.rxqs ≡ [])
      × (close_interface (port ∷ []) interface packets
          ≡ ok (
            record interface { port_up = false; txqs = []; rxqs = [] },
            packets,
            set_rx_ctrl 0 port ++ set_tx_ctrl 0 port,
          )))
    ⊎ (((interface.txqs ≢ []) ⊎ (interface.rxqs ≢ []))
        × ((s : Changed) → close_interface (port ∷ []) interface packets ≢ ok s))
close_interface_lem_example = close_interface_lem (port ∷ []) interface packets refl

-- Memory for ten thousand buffers.
abbrev many : Packets
many = record {
  pool = record { answers = λ n. 0x10000 * n + 0x10000; capacity = 10000; taken = 0 };
  allocated_packets = [];
  free_packets = [];
}

many-Owns : Owns many (λ _. 0)
many-Owns = record {
  balance = λ j. refl;
  fresh = λ k l u. refl;
  distinct = λ i j l u e. omega arith;
  addressable = λ j h. absurd (cc);
  pool_addressable = λ i l. omega arith;
}

-- An interface for one queue of each kind.
abbrev small : Interface
small = record interface {
  port_up = false;
  eqs = Eq.opened 3 1024 0 0x1000 0 ∷ [];
  cq_res = Resource.new 2 0x3000 32;
  txq_res = Resource.new 1 0x2000 32;
  rxq_res = Resource.new 1 0x4000 32;
  txqs = [];
}

supply :
    (n parent stride : ℕ)
    → n ≤ length (Resource.new n parent stride).free_list
    → Stocked (Resource.new n parent stride) n
supply n parent stride h = record { valid = (new_lem n parent stride).0; free = h }

small_eq :
    (p : ℕ) (eq : Eq) → get_elem? small.eqs p ≡ some eq → IsEq [] eq × ((n : ℕ) × (eq.eqn ≡ some n))
small_eq zero eq h =
    subst (λ (z : Eq). IsEq [] z × ((n : ℕ) × (z.eqn ≡ some n))) (same-some h)
      (fresh-IsEq [] 3 0 0x1000 0, (0, refl))
small_eq (suc p) eq h = absurd (cc)

small-Openable : Openable (λ _. 0) 5 1 1 (small, many, [])
unfolding Resource.new
small-Openable = record {
  well =
      no_queues-IsWell small refl refl refl (λ p eq h. (small_eq p eq h).0) many-Owns (omega arith);
  some_eq = omega arith;
  numbered = λ p eq h. (small_eq p eq h).1;
  cq_left = supply 2 0x3000 32 (omega arith);
  rx_left = supply 1 0x4000 32 (omega arith);
  tx_left = supply 1 0x2000 32 (omega arith);
}

open_interface_lem_example :
    (s : Changed) × (open_interface (port ∷ []) small many ≡ ok s) × Up small port 1 1 (λ _. 0) 5 s
unfolding get_count Resource.new
open_interface_lem_example =
    open_interface_lem 1 1 (port ∷ []) small many refl refl refl small-Openable

open-init_interface_example :
    (s : Initialised) × (init_interface 8 registers 0 3 many ≡ ok s)
    × ((s' : Changed) × (open_interface s.settings.ports s.interface s.packets ≡ ok s')
        × Up s.interface port (rxqs_of present) (txqs_of present) (λ _. 0) 5 s')
unfolding present
open-init_interface_example =
    open-init_interface present 3 refl (omega arith) (omega arith) many-Owns (omega arith)
