-- ===== src/Lifecycle/Opening.antt =====
-- What holds between the rounds of the loops of `Interface.open`.
use schedra_nic.Prelude.{
  ℕ, ◌+◌, ◌-◌, ◌*◌, ◌^◌, ◌≤◌, ◌<◌, ◌≡◌, refl, inl, inr, subst, arith, get_elem?-bound,
  get_elem?-append_cases, true, List, [], ◌∷◌, ◌++◌, some, length, get_elem?, length-append,
}
use schedra_nic.Device.{ok, Write}
use schedra_nic.Resource.Stock.{Stocked}
use schedra_nic.Ring.{bit_length}
use schedra_nic.Eq.{Eq}
use schedra_nic.Cq.{Cq, Handler}
use schedra_nic.Cq.Completion.{IsCq}
use schedra_nic.Txq
use schedra_nic.Txq.{Txq}
use schedra_nic.Txq.Transmit
use schedra_nic.Rxq
use schedra_nic.Rxq.{Rxq}
use schedra_nic.Rxq.Prepared.{Prepared}
use schedra_nic.Rxq.Refill
use schedra_nic.Interface.{Changed}
use schedra_nic.Interface.Well.{IsWell}
use schedra_nic.Lifecycle.OpenCq.{Numbered}

-- A receive queue is enabled, and all of its descriptors wait for packets, each with a buffer in
-- its slot that its block names to the device; a transmit queue is enabled, and has nothing to send.
abbrev pub RxReady : Rxq → Type 0
RxReady t =
    (t.enabled ≡ true)
    × (t.prod_ptr ≡ t.cons_ptr + t.size)
    × ((p : ℕ) → t.cons_ptr ≤ p → p < t.prod_ptr → Prepared t p)

abbrev pub TxReady : Txq → Type 0
TxReady t = (t.enabled ≡ true) × (t.prod_ptr ≡ t.cons_ptr)

-- `rx` receive queues and `tx` transmit queues can be opened, with 8192 and 512 descriptors: there
-- is an EQ, the EQs have numbers, the numbers of CQs and queues are enough, and so are the buffers,
-- of which each queue takes one region more for its own ring and one for its CQ's.
pub record Openable (other : ℕ → ℕ) (slack rx tx : ℕ) (s : Changed) : Type 0 where
  pub well : IsWell s.0 s.1 other (slack + 8194 * rx + 514 * tx)
  pub some_eq : 0 < length s.0.eqs
  pub numbered : (p : ℕ) (eq : Eq) → get_elem? s.0.eqs p ≡ some eq → Numbered eq
  pub cq_left : Stocked s.0.cq_res (rx + tx)
  pub rx_left : Stocked s.0.rxq_res rx
  pub tx_left : Stocked s.0.txq_res tx

-- Between the rounds: the queues from the places `rx0` and `tx0` on are those opened so far, and
-- `rx` and `tx` of them are to be opened still.
pub record Opening (other : ℕ → ℕ) (slack rx0 tx0 rxqs txqs rx tx : ℕ) (s : Changed) : Type 0 where
  pub well : IsWell s.0 s.1 other (slack + 8194 * rx + 514 * tx)
  pub some_eq : 0 < length s.0.eqs
  pub numbered : (p : ℕ) (eq : Eq) → get_elem? s.0.eqs p ≡ some eq → Numbered eq
  pub cq_left : Stocked s.0.cq_res (rx + tx)
  pub rx_left : Stocked s.0.rxq_res rx
  pub tx_left : Stocked s.0.txq_res tx
  pub rx_ready : (r : ℕ) (t : Rxq) → rx0 ≤ r → get_elem? s.0.rxqs r ≡ some t → RxReady t
  pub tx_ready : (r : ℕ) (t : Txq) → tx0 ≤ r → get_elem? s.0.txqs r ≡ some t → TxReady t
  pub rx_made : length s.0.rxqs + rx ≡ rxqs
  pub tx_made : length s.0.txqs + tx ≡ txqs

-- Before the first round.
pub Openable-Opening :
    {other : ℕ → ℕ} {slack rx tx : ℕ} (s : Changed)
    → Openable other slack rx tx s
    → Opening other slack
        (length s.0.rxqs)
        (length s.0.txqs)
        (length s.0.rxqs + rx)
        (length s.0.txqs + tx)
        rx
        tx
        s
Openable-Opening s o = record {
  well = o.well;
  some_eq = o.some_eq;
  numbered = o.numbered;
  cq_left = o.cq_left;
  rx_left = o.rx_left;
  tx_left = o.tx_left;
  rx_ready = λ r t l h. absurd (omega (arith, get_elem?-bound s.0.rxqs r h));
  tx_ready = λ r t l h. absurd (omega (arith, get_elem?-bound s.0.txqs r h));
  rx_made = refl;
  tx_made = refl;
}

-- A property of the elements from a place on holds of the list with one more that has it.
pub append_new-From {ℓ} :
    {A : Type ℓ} (P : A → Type 0) (n : ℕ) (xs : List A) (x : A)
    → ((i : ℕ) (y : A) → n ≤ i → get_elem? xs i ≡ some y → P y)
    → P x
    → (i : ℕ) (y : A) → n ≤ i
    → get_elem? (xs ++ x ∷ []) i ≡ some y
    → P y
append_new-From P n xs x all p i y l h = elim (get_elem?-append_cases xs i x h) [
  | inl old ↦ all i y l old
  | inr (_, e) ↦ subst P e p
]

pub rx_enabled :
    {t : Rxq}
    → Refill.IsOpen t
    → (ws : List Write) × (Rxq.enable t ≡ ok (record t { enabled = true }, ws))
unfolding Rxq.enable
rx_enabled v = rw v.window.1 (_, refl)

pub enabled-Rxq : {t : Rxq} → Refill.IsOpen t → Refill.IsOpen (record t { enabled = true })
enabled-Rxq v = record {
  size = v.size;
  size_mask = v.size_mask;
  full_size = v.full_size;
  block = v.block;
  stride = v.stride;
  ring = v.ring;
  window = v.window;
}

pub tx_enabled :
    {t : Txq}
    → Transmit.IsOpen t
    → (ws : List Write) × (Txq.enable t ≡ ok (record t { enabled = true }, ws))
unfolding Txq.enable
tx_enabled v = rw v.window.1 (_, refl)

pub enabled-Txq : {t : Txq} → Transmit.IsOpen t → Transmit.IsOpen (record t { enabled = true })
enabled-Txq v = record {
  size = v.size;
  size_mask = v.size_mask;
  full_size = v.full_size;
  block = v.block;
  stride = v.stride;
  ring = v.ring;
  window = v.window;
}

-- A CQ stays open when it gets its ring.
pub with_ring :
    {q : Cq} (ring : ℕ) (h : Handler)
    → IsCq q
    → IsCq (record q { src_ring = some ring; handler = some h })
with_ring ring h v = record { size = v.size; size_mask = v.size_mask; window = v.window }

pub rx_size : 2 ^ (bit_length 8192 - 1) ≡ 8192
unfolding bit_length
rx_size = refl

pub tx_size : 2 ^ (bit_length 512 - 1) ≡ 512
unfolding bit_length
tx_size = refl

pub length-append_one {ℓ} :
    {A : Type ℓ} (xs : List A) (x : A) → length (xs ++ x ∷ []) ≡ length xs + 1
length-append_one xs x = length-append xs (x ∷ [])
