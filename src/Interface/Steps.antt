-- ===== src/Interface/Steps.antt =====
-- The runs of an open interface: interrupts, sends, receives and what the device writes, in any order.
-- Each call is one step: its awaits are not points where another call steps in.
use schedra_nic.Prelude.{
  ℕ, ◌^◌, ◌+◌, ◌≤◌, ◌<◌, ◌≡◌, List, [], ◌∷◌, ◌++◌, Option, none, some, get_elem?, length,
}
use schedra_nic.Device.{ok}
use schedra_nic.Struct.{Bytes}
use schedra_nic.Packets.{Packets, pkt_buf_size}
use schedra_nic.Eq.{Eq}
use schedra_nic.Cq.{Cq}
use schedra_nic.Txq.{Txq}
use schedra_nic.Rxq.{Packet}
use schedra_nic.Xmit.{csum_command, ring_of}
use schedra_nic.Interface.{Interface, Changed, After, interrupt_handler, xmit, recv_nowait}
use schedra_nic.Interface.Well.{Linked, link, AllFresh, Names}
use schedra_nic.Interface.Arrivals.{Arrived}

pub record State : Type 0 where
  pub interface : Interface
  pub packets : Packets
  pub mem : Bytes

-- What the device may do to the rings of events and completions: it writes entries, so that all
-- new completions answer what is outstanding, and all new events name CQs that are there.
pub record Reports (i : Interface) (cqs : List Cq) (eqs : List Eq) : Type 0 where
  pub same_links : (x : ℕ) → link (get_elem? cqs x) ≡ link (get_elem? i.cqs x)
  pub completions :
      (p : ℕ) (q' : Cq)
      → get_elem? cqs p ≡ some q'
      → (q : Cq) × (get_elem? i.cqs p ≡ some q) × (q' ≡ record q { buf = q'.buf }) × Linked i q'
  pub events :
      (p : ℕ) (eq' : Eq)
      → get_elem? eqs p ≡ some eq'
      → (eq : Eq) × (get_elem? i.eqs p ≡ some eq)
        × (eq' ≡ record eq { buf = eq'.buf })
        × ((c : ℕ) → eq'.cons_ptr ≤ c → AllFresh eq' eq'.cons_ptr c → Names i.cqs eq' c)

-- The steps. The device also writes memory, where received packets stand.
pub data Step (max_tx_mtu : ℕ) (s : State) : State → Type 0 where
  interrupt :
      (index : ℕ) (r : Changed)
      → interrupt_handler s.mem index s.interface s.packets ≡ ok r
      → Step max_tx_mtu s (record { interface = r.0; packets = r.1; mem = s.mem })
  send :
      (rank : ℕ) (tx_ring csum_start csum_offset : Option ℕ) (skb : List ℕ) (ring : Txq) (a : After)
      → rank < 2 ^ 29
      → length skb + 10 ≤ pkt_buf_size
      → length skb < max_tx_mtu
      → csum_command csum_start csum_offset < 2 ^ 16
      → ring_of tx_ring s.interface.txqs ≡ ok ring
      → xmit max_tx_mtu rank tx_ring csum_start csum_offset skb s.interface s.packets s.mem ≡ ok a
      → Step max_tx_mtu s (record { interface = a.interface; packets = a.packets; mem = a.mem })
  receive :
      Step max_tx_mtu s
        (record s { interface = record s.interface { rx = (recv_nowait s.interface.rx).1 } })
  device :
      (cqs : List Cq) (eqs : List Eq) (mem : Bytes)
      → Reports s.interface cqs eqs
      → Step max_tx_mtu s (record {
        interface = record s.interface { cqs = cqs; eqs = eqs };
        packets = s.packets;
        mem = mem;
      })

pub data Run (max_tx_mtu : ℕ) (s : State) : State → Type 0 where
  start : Run max_tx_mtu s s
  step : (m s' : State) → Run max_tx_mtu s m → Step max_tx_mtu m s' → Run max_tx_mtu s s'

abbrev pub queue : State → List Packet
queue s = s.interface.rx.pkt_rx_queue

-- The packet that a receive hands out, if there is one.
abbrev pub handed : Option Packet → List Packet
handed none = []
handed (some skb) = skb ∷ []

-- The packets that a step, or a run, hands out.
abbrev pub taken_by : {max_tx_mtu : ℕ} {s s' : State} → Step max_tx_mtu s s' → List Packet
taken_by {s = s} receive = handed (recv_nowait s.interface.rx).0
taken_by (interrupt index r e) = []
taken_by (send rank tx_ring csum_start csum_offset skb ring a low fits small csum at e) = []
taken_by (device cqs eqs mem d) = []

abbrev pub taken : {max_tx_mtu : ℕ} {s s' : State} → Run max_tx_mtu s s' → List Packet
taken start = []
taken (step m s' run next) = taken run ++ taken_by next

-- The packets that arrive in a step: in an interrupt, those that its handlers bring, and else none.
abbrev pub CameIn : {max_tx_mtu : ℕ} {s s' : State} → Step max_tx_mtu s s' → List Packet → Type 0
CameIn {s = s} (interrupt index r e) skbs = Arrived s.mem s.interface.cqs r.0.cqs skbs
CameIn (send rank tx_ring csum_start csum_offset skb ring a low fits small csum at e) skbs =
    skbs ≡ []
CameIn receive skbs = skbs ≡ []
CameIn (device cqs eqs mem d) skbs = skbs ≡ []

-- The packets that arrive in a run, in their order.
pub data CameDuring {max_tx_mtu : ℕ} {s : State}
    : (s' : State) → Run max_tx_mtu s s' → List Packet → Type 0 where
  at_start : CameDuring s start []
  one_step :
      {m s' : State} {run : Run max_tx_mtu s m} {next : Step max_tx_mtu m s'}
      (skbs more : List Packet)
      → CameDuring m run skbs
      → CameIn next more
      → CameDuring s' (step m s' run next) (skbs ++ more)
