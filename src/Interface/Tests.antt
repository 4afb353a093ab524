-- ===== src/Interface/Tests.antt =====
-- Runs of an interface of one transmit queue, whose first packet the device has completed and announced.
use schedra_nic.Prelude.{ℕ, ◌^◌, ◌<◌, ◌≡◌, refl, true, List, [], ◌∷◌, none, arith}
use schedra_nic.Device.{ok}
use schedra_nic.Struct.{Bytes}
use schedra_nic.Xmit.{csum_command, ring_of}
use schedra_nic.Interface.{Changed, After, process_eq, interrupt_handler, xmit, recv_nowait}
use schedra_nic.Interface.Well.{IsWell}
use schedra_nic.Interface.EqServed.{EventsServed, process_eq_lem}
use schedra_nic.Interface.Interrupt.{InterruptServed, interrupt_handler_lem}
use schedra_nic.Interface.Sends.{Came, xmit_lem}
use schedra_nic.Interface.Steps.{State, Run, start}
use schedra_nic.Interface.Run.{IsUp, no_raise}
use schedra_nic.Sample.{packets, txq}
use schedra_nic.Interface.Example.{eq, interface, interface-IsWell}

abbrev memory : Bytes
memory = λ _. 0

process_eq_lem_example :
    (s : Changed) × (process_eq memory 0 interface packets ≡ ok s)
    × EventsServed memory (λ _. 0) 12 interface 0 eq s
process_eq_lem_example = process_eq_lem memory 0 interface-IsWell refl refl

interrupt_handler_lem_example :
    (s : Changed) × (interrupt_handler memory 2 interface packets ≡ ok s)
    × InterruptServed memory (λ _. 0) 12 2 interface s
interrupt_handler_lem_example = interrupt_handler_lem memory 2 interface-IsWell refl

abbrev skb : List ℕ
skb = 1 ∷ 2 ∷ 3 ∷ []

first_ring : ring_of none (txq ∷ []) ≡ ok txq
unfolding ring_of
first_ring = refl

no_command : csum_command none none < 2 ^ 16
unfolding csum_command
no_command = omega arith

xmit_lem_example :
    (a : After) × (xmit 1500 9 none none none skb interface packets memory ≡ ok a)
    × IsWell a.interface a.packets (λ _. 0) 12
    × (a.interface.port_up ≡ true)
    × (a.interface.rx ≡ interface.rx)
    × Came interface txq 0 9 skb a
xmit_lem_example =
    xmit_lem 1500 9 none none none skb memory interface-IsWell (omega arith) (omega arith)
      (omega arith) no_command first_ring

abbrev state : State
state = record { interface = interface; packets = packets; mem = memory }

state-IsUp : IsUp (λ _. 0) 12 state
state-IsUp = record { well = interface-IsWell; port_up = refl }

-- The interrupt of the EQ, and then a receive that finds nothing.
abbrev served : Changed
served = (interrupt_handler_lem memory 2 interface-IsWell refl).0

abbrev after_interrupt : State
after_interrupt = record { interface = served.0; packets = served.1; mem = memory }

abbrev after_receive : State
after_receive = record after_interrupt {
  interface = record served.0 { rx = (recv_nowait served.0.rx).1 };
}

no_raise_example :
    ((r : Changed) × (interrupt_handler memory 2 interface packets ≡ ok r)
      × InterruptServed memory (λ _. 0) 12 2 interface r)
    × ((a : After) × (xmit 1500 9 none none none skb interface packets memory ≡ ok a)
        × Came interface txq 0 9 skb a)
no_raise_example =
    no_raise state state 2 9 none none none skb txq state-IsUp start (omega arith) (omega arith)
      (omega arith) no_command first_ring
