-- ===== src/Cq/Completion.antt =====
-- Completions that answer what a ring has outstanding, and what consuming one of them keeps: shared
-- by `Txq.process_tx_cq` and `Rxq.process_rx_cq`.
use schedra_nic.Prelude.{
  ℕ, ◌+◌, ◌-◌, ◌^◌, ◌≤◌, ◌<◌, ◌≡◌, ◌≢◌, ap, ◌∙◌, none, some, set, get_elem?, arith, false, Bool,
  get_elem?-set_ne, ℕ_discrete,
}
use schedra_nic.Device.{ok}
use schedra_nic.Packets.{Packets}
use schedra_nic.Packets.Ownership.{Owns, available, free_pkt_lem}
use schedra_nic.Ring.{Slots, free_desc}
use schedra_nic.Ring.Slots.{IsRing, holds, holds-set-none, clear-IsRing, slot_at-some}
use schedra_nic.Ring.Occupancy.{occupied, occupied-set-none}
use schedra_nic.Drain.{is_empty}
use schedra_nic.Cq.{Cq, completed_index}

-- A CQ whose ring of completions has 2 ** log_size entries.
pub record IsCq (q : Cq) : Type 0 where
  pub size : q.size ≡ 2 ^ q.log_size
  pub size_mask : q.size_mask ≡ 2 ^ q.log_size - 1
  pub window : (w : ℕ) × (q.hw_regs ≡ some w)

module _ (q : Cq) where
  -- The completion at a pointer has nothing new.
  abbrev pub is_old : ℕ → Bool
  is_old c = is_empty q.buf q.size q.size_mask q.stride c

  -- All completions from one pointer to another are new.
  abbrev pub AllNew : ℕ → ℕ → Type 0
  AllNew from to = (i : ℕ) → from ≤ i → i ≤ to → is_old i ≡ false

  -- One more new completion in front.
  pub extend : {c d : ℕ} → is_old c ≡ false → AllNew (c + 1) d → AllNew c d
  extend {c} new all i l u = elim (ℕ_discrete i c) [
    | yes e ↦ ap is_old e ∙ new
    | no ne ↦ all i (omega arith) u
  ]

  pub new_here : {c : ℕ} → is_old c ≡ false → AllNew c c
  new_here {c} new i l u = ap is_old same ∙ new
    where
      same : i ≡ c
      same = omega arith

module _ (q : Cq) (k size_mask prod cons : ℕ) where
  -- The new completions from a pointer on answer what the ring has outstanding: each names a slot
  -- that holds a packet, and no two name the same slot.
  pub record Answers (from : ℕ) (info : Slots) : Type 0 where
    pub holds_packet :
        (c : ℕ)
        → from ≤ c
        → AllNew q from c
        → (pkt : ℕ) × (get_elem? info (completed_index q size_mask c) ≡ some (some pkt))
    pub apart :
        (b c : ℕ)
        → from ≤ b
        → b < c
        → AllNew q from c
        → completed_index q size_mask b ≢ completed_index q size_mask c

  -- The state of the loop at a pointer: a ring, each buffer in one place, none lost, and the rest
  -- answered.
  pub record Pending (total : ℕ) (other : ℕ → ℕ) (c : ℕ) (s : Slots × Packets) : Type 0 where
    pub ring : IsRing k s.0 prod cons
    pub owns : Owns s.1 (λ j. other j + holds s.0 j)
    pub answers : Answers c s.0
    pub buffers : available s.1 + occupied s.0 ≡ total

  -- The slots of the completions to come are left alone.
  pub others_kept :
      {c : ℕ} {info : Slots}
      → is_old q c ≡ false
      → Answers c info
      → (d : ℕ) → c + 1 ≤ d
      → AllNew q (c + 1) d
      → get_elem? (set info (completed_index q size_mask c) none) (completed_index q size_mask d)
        ≡ get_elem? info (completed_index q size_mask d)
  others_kept {c} {info} new a d l all =
      get_elem?-set_ne info none (a.apart c d (omega arith) (omega arith) (extend q new all))

  rest_answered :
      {c : ℕ} {info : Slots}
      → is_old q c ≡ false
      → Answers c info
      → Answers (c + 1) (set info (completed_index q size_mask c) none)
  rest_answered {c} {info} new a = record {
    holds_packet = λ d l all.
        let (pkt, e) = a.holds_packet d (omega arith) (extend q new all) in
        (pkt, others_kept new a d l all ∙ e);
    apart = λ b d l u all. a.apart b d (omega arith) u (extend q new all);
  }

  -- The slot that a new completion names is freed, its packet goes back to the driver, and the rest
  -- stays as it should be.
  pub free_completed :
      {total : ℕ} {other : ℕ → ℕ} (c : ℕ) (info : Slots) (packets : Packets)
      → Pending total other c (info, packets)
      → is_old q c ≡ false
      → (pkt : ℕ) × (packets' : Packets) × (get_elem? info (completed_index q size_mask c)
          ≡ some (some pkt))
        × (free_desc (completed_index q size_mask c) info packets
            ≡ ok (set info (completed_index q size_mask c) none, packets'))
        × Pending total other (c + 1) (set info (completed_index q size_mask c) none, packets')
  unfolding free_desc
  free_completed {total} {other} c info packets p new =
      let at = completed_index q size_mask c in
      let (pkt, e) = p.answers.holds_packet c (omega arith) (new_here q new) in
      let (packets', f, owns, more) =
        free_pkt_lem {after = λ j. other j + holds (set info at none) j} pkt p.owns
          (λ j. omega (arith, holds-set-none info at pkt j e)) in
      (
        pkt,
        packets',
        e,
        rw (slot_at-some info at e, f),
        record {
          ring = clear-IsRing p.ring at;
          owns = owns;
          answers = rest_answered new p.answers;
          buffers = omega (arith, p.buffers, more, occupied-set-none info at pkt e);
        },
      )
