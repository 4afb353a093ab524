-- ===== src/Interface/Well.antt =====
-- What a well-formed interface is: its queues and CQs are well formed and linked one to one, each
-- packet buffer is in one place, there are buffers for all rings, and the device has reported only
-- what is outstanding.
use schedra_nic.Prelude.{
  ℕ, ◌+◌, ◌-◌, ◌^◌, ◌≤◌, ◌≡◌, ◌≢◌, ◌⊎◌, Bool, false, List, Option, none, some, get_elem?, total,
}
use schedra_nic.Device.{ok}
use schedra_nic.Regs.{mqnic_event_type_cpl}
use schedra_nic.Packets.{Packets}
use schedra_nic.Packets.Ownership.{Owns, available}
use schedra_nic.Ring.Slots.{holds}
use schedra_nic.Ring.Occupancy.{occupied}
use schedra_nic.Drain.{is_empty}
use schedra_nic.Eq.{Eq, cq_at}
use schedra_nic.Cq.{Cq, Handler, process_tx_cq, process_rx_cq}
use schedra_nic.Cq.Completion.{IsCq, Answers}
use schedra_nic.Txq.{Txq}
use schedra_nic.Txq.Transmit
use schedra_nic.Rxq.{Rxq}
use schedra_nic.Rxq.Refill
use schedra_nic.Interface.{Interface, event_field}

-- The slots of all rings that hold a buffer, the buffers that they hold, and their slots.
abbrev pub held_by : Interface → ℕ → ℕ
held_by i j =
    total (λ (t : Txq). holds t.tx_info j) i.txqs + total (λ (t : Rxq). holds t.rx_info j) i.rxqs

abbrev pub in_rings : Interface → ℕ
in_rings i =
    total (λ (t : Txq). occupied t.tx_info) i.txqs + total (λ (t : Rxq). occupied t.rx_info) i.rxqs

abbrev pub ring_sizes : Interface → ℕ
ring_sizes i = total (λ (t : Txq). t.size) i.txqs + total (λ (t : Rxq). t.size) i.rxqs

-- What a CQ says of its ring.
abbrev pub link : Option Cq → Option (Option Handler × Option ℕ)
link none = none
link (some q) = some (q.handler, q.src_ring)

-- The CQ's ring is there, and its new completions answer what the ring has outstanding.
pub data Linked (i : Interface) (q : Cq) : Type 0 where
  to_tx :
      (r : ℕ) (t : Txq)
      → q.handler ≡ some process_tx_cq
      → q.src_ring ≡ some r
      → get_elem? i.txqs r ≡ some t
      → Answers q t.log_queue_size t.size_mask t.prod_ptr t.cons_ptr q.cons_ptr t.tx_info
      → Linked i q
  to_rx :
      (r : ℕ) (t : Rxq)
      → q.handler ≡ some process_rx_cq
      → q.src_ring ≡ some r
      → get_elem? i.rxqs r ≡ some t
      → Answers q t.log_queue_size t.size_mask t.prod_ptr t.cons_ptr q.cons_ptr t.rx_info
      → Linked i q

-- The event at a pointer has nothing new; all events from one pointer to another are new.
abbrev pub eq_old : Eq → ℕ → Bool
eq_old eq c = is_empty eq.buf eq.size eq.size_mask eq.stride c

abbrev pub AllFresh : Eq → ℕ → ℕ → Type 0
AllFresh eq from to = (k : ℕ) → from ≤ k → k ≤ to → eq_old eq k ≡ false

-- An event is of another type, or names a CQ of the table that is there.
abbrev pub Names : List Cq → Eq → ℕ → Type 0
Names cqs eq c =
    (event_field eq c 0 ≢ mqnic_event_type_cpl)
    ⊎ ((place : ℕ) × (k : Option Handler × Option ℕ) × (cq_at (event_field eq c 2) eq.cq_table
          ≡ ok place)
        × (link (get_elem? cqs place) ≡ some k))

-- An open EQ whose new events name CQs that are there.
pub record IsEq (cqs : List Cq) (eq : Eq) : Type 0 where
  pub size : eq.size ≡ 2 ^ eq.log_size
  pub size_mask : eq.size_mask ≡ 2 ^ eq.log_size - 1
  pub window : (w : ℕ) × (eq.hw_regs ≡ some w)
  pub events : (c : ℕ) → eq.cons_ptr ≤ c → AllFresh eq eq.cons_ptr c → Names cqs eq c

-- `other j` slots elsewhere hold the buffer j; `slack` buffers are needed elsewhere.
pub record IsWell (i : Interface) (packets : Packets) (other : ℕ → ℕ) (slack : ℕ) : Type 0 where
  pub tx_open : (r : ℕ) (t : Txq) → get_elem? i.txqs r ≡ some t → Transmit.IsOpen t
  pub rx_open : (r : ℕ) (t : Rxq) → get_elem? i.rxqs r ≡ some t → Refill.IsOpen t
  pub cq_open : (p : ℕ) (q : Cq) → get_elem? i.cqs p ≡ some q → IsCq q × Linked i q
  pub one_each :
      (p p' : ℕ) (k : Option Handler × Option ℕ)
      → p ≢ p'
      → link (get_elem? i.cqs p) ≡ some k
      → link (get_elem? i.cqs p') ≢ some k
  pub eq_open : (p : ℕ) (eq : Eq) → get_elem? i.eqs p ≡ some eq → IsEq i.cqs eq
  pub owns : Owns packets (λ j. other j + held_by i j)
  pub enough : ring_sizes i + slack ≤ available packets + in_rings i
