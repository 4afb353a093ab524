-- ===== src/Ring/Slots.antt =====
-- The slots between the two pointers: which are empty, and how many hold a given buffer.
use native.Mathlib.Nat.{mod-lt, add-mod_right}
use schedra_nic.Prelude.{
  ℕ, zero, suc, ◌+◌, ◌-◌, ◌%◌, ◌≤◌, ◌<◌, ◌^◌, ◌≡◌, ◌≢◌, refl, ap, ◌∙◌, ◌⊎◌, inl, inr, [], ◌∷◌,
  Option, none, some, ◌==◌, length, replicate, get_elem?, set, arith, dec_lt, two_pow_pos, and_mask,
  length-set, get_elem?-set_ne, get_elem?_in_range, bit_and, ℕ_discrete,
}
use schedra_nic.Device.{ok}
use schedra_nic.Packets.Ownership.{one_if}
use schedra_nic.Ring.{Slots, slot_at, stop_or, advance}
use schedra_nic.Ring.Window.{mod-ne_of_window}

-- The slots that hold the buffer j.
abbrev pub holds : Slots → ℕ → ℕ
holds [] j = 0
holds (none ∷ s) j = holds s j
holds (some p ∷ s) j = one_if (p == j) + holds s j

-- Empty slots hold nothing.
pub holds-replicate : (n j : ℕ) → holds (replicate n none) j ≡ 0
holds-replicate zero j = refl
holds-replicate (suc n) j = holds-replicate n j

pub holds-set-some :
    (info : Slots) (i p j : ℕ)
    → get_elem? info i ≡ some none
    → holds (set info i (some p)) j ≡ holds info j + one_if (p == j)
holds-set-some [] i p j h = cc
holds-set-some (none ∷ s) zero p j h = omega arith
holds-set-some (some q ∷ s) zero p j h = absurd (cc)
holds-set-some (none ∷ s) (suc i) p j h = holds-set-some s i p j h
holds-set-some (some q ∷ s) (suc i) p j h = omega (arith, holds-set-some s i p j h)

pub holds-set-none :
    (info : Slots) (i p j : ℕ)
    → get_elem? info i ≡ some (some p)
    → holds info j ≡ holds (set info i none) j + one_if (p == j)
holds-set-none [] i p j h = cc
holds-set-none (none ∷ s) zero p j h = absurd (cc)
holds-set-none (some q ∷ s) zero p j h = ground arith
holds-set-none (none ∷ s) (suc i) p j h = holds-set-none s i p j h
holds-set-none (some q ∷ s) (suc i) p j h = omega (arith, holds-set-none s i p j h)

-- A ring of 2 ** k slots: the pointers are in order and at most a ring apart, and every slot that
-- is not between them is empty.
pub record IsRing (k : ℕ) (info : Slots) (prod cons : ℕ) : Type 0 where
  pub slots : length info ≡ 2 ^ k
  pub order : cons ≤ prod
  pub room : prod ≤ cons + 2 ^ k
  pub vacant : (p : ℕ) → prod ≤ p → p < cons + 2 ^ k → get_elem? info (p % 2 ^ k) ≡ some none

pub stays_vacant :
    (info : Slots) (i j : ℕ)
    → get_elem? info j ≡ some none
    → get_elem? (set info i none) j ≡ some none
stays_vacant [] i j h = h
stays_vacant (x ∷ s) zero zero h = refl
stays_vacant (x ∷ s) zero (suc j) h = h
stays_vacant (x ∷ s) (suc i) zero h = h
stays_vacant (x ∷ s) (suc i) (suc j) h = stays_vacant s i j h

module _ {k : ℕ} {info : Slots} {prod cons : ℕ} (r : IsRing k info prod cons) where
  -- The producer's slot is filled.
  pub put-IsRing :
      (pkt : ℕ)
      → prod < cons + 2 ^ k
      → IsRing k (set info (prod % 2 ^ k) (some pkt)) (prod + 1) cons
  put-IsRing pkt h = record {
    slots = length-set info (prod % 2 ^ k) (some pkt) ∙ r.slots;
    order = omega (arith, r.order);
    room = omega arith;
    vacant = λ p l u.
        get_elem?-set_ne info (some pkt)
          (mod-ne_of_window (2 ^ k) prod p (omega arith) (omega (arith, r.order)))
        ∙ r.vacant p (omega arith) u;
  }

  -- Any slot is emptied.
  pub clear-IsRing : (i : ℕ) → IsRing k (set info i none) prod cons
  clear-IsRing i = record {
    slots = length-set info i none ∙ r.slots;
    order = r.order;
    room = r.room;
    vacant = λ p l u. stays_vacant info i (p % 2 ^ k) (r.vacant p l u);
  }

  -- The consumer pointer passes an empty slot.
  pub pass-IsRing :
      cons < prod → get_elem? info (cons % 2 ^ k) ≡ some none → IsRing k info prod (cons + 1)
  pass-IsRing h e = record {
    slots = r.slots;
    order = omega arith;
    room = omega (arith, r.room);
    vacant = λ p l u. elim (dec_lt p (cons + 2 ^ k)) [
      | yes b ↦ r.vacant p l b
      | no b ↦
          let wraps : p ≡ cons + 2 ^ k = omega arith in
          ap (λ t. get_elem? info (t % 2 ^ k)) wraps
          ∙ ap (get_elem? info) (add-mod_right cons (2 ^ k))
          ∙ e
    ];
  }

-- The contents of the slot of a position.
pub IsRing-slot :
    {k : ℕ} {info : Slots} {prod cons : ℕ} (p : ℕ)
    → IsRing k info prod cons
    → (s : Option ℕ) × (get_elem? info (p % 2 ^ k) ≡ some s)
IsRing-slot {k} {info} p r =
    get_elem?_in_range info (p % 2 ^ k) (rw r.slots (mod-lt p (two_pow_pos k)))

pub slot_at-some :
    (info : Slots) (i : ℕ) {s : Option ℕ} → get_elem? info i ≡ some s → slot_at info i ≡ ok s
unfolding slot_at
slot_at-some info i h = rw (h, slot_at)

advance_step :
    (fuel : ℕ) (info : Slots) (size_mask prod cons : ℕ) {s : Option ℕ}
    → cons ≢ prod
    → slot_at info (bit_and cons size_mask) ≡ ok s
    → advance (suc fuel) info size_mask prod cons
      ≡ stop_or (advance fuel info size_mask prod (cons + 1)) cons s
unfolding advance
advance_step fuel info size_mask prod cons ne e = rw e (ground arith)

-- What "process ring" has done when it stops: the pointer has passed empty slots only, and stands at
-- the producer's or at a slot that holds a packet.
pub record Advanced (k : ℕ) (info : Slots) (prod cons c : ℕ) : Type 0 where
  pub ring : IsRing k info prod c
  pub forward : cons ≤ c
  pub passed : (p : ℕ) → cons ≤ p → p < c → get_elem? info (p % 2 ^ k) ≡ some none
  pub stopped : (c ≡ prod) ⊎ ((pkt : ℕ) × (get_elem? info (c % 2 ^ k) ≡ some (some pkt)))

-- On a ring, with one round for each outstanding descriptor, "process ring" returns, and has done
-- what `Advanced` says.
pub advance_lem :
    {k : ℕ} {info : Slots} {prod : ℕ} (cons fuel size_mask : ℕ)
    → IsRing k info prod cons
    → prod ≤ cons + fuel
    → size_mask ≡ 2 ^ k - 1
    → (c : ℕ) × (advance fuel info size_mask prod cons ≡ ok c) × Advanced k info prod cons c
unfolding advance slot_at
advance_lem {k} {info} {prod} cons zero size_mask r f m = (
  cons,
  ground (arith, r.order),
  record {
    ring = r;
    forward = omega arith;
    passed = λ p l u. absurd (omega arith);
    stopped = inl (omega (arith, r.order));
  },
)
advance_lem {k} {info} {prod} cons (suc fuel) size_mask r f m = elim (ℕ_discrete cons prod) [
  | yes e ↦ (
    cons,
    ground arith,
    record {
      ring = r;
      forward = omega arith;
      passed = λ p l u. absurd (omega arith);
      stopped = inl e;
    },
  )
  | no ne ↦
      at_slot ne (λ r'. advance_lem (cons + 1) fuel size_mask r' (omega arith) m)
        (IsRing-slot cons r).0 (IsRing-slot cons r).1
]
  where
    index : bit_and cons size_mask ≡ cons % 2 ^ k
    index = ap (bit_and cons) m ∙ and_mask k cons

    here :
        {s : Option ℕ}
        → get_elem? info (cons % 2 ^ k) ≡ some s
        → slot_at info (bit_and cons size_mask) ≡ ok s
    here e = ap (slot_at info) index ∙ slot_at-some info (cons % 2 ^ k) e

    at_slot :
        cons ≢ prod
        → (IsRing k info prod (cons + 1)
            → (c : ℕ) × (advance fuel info size_mask prod (cons + 1) ≡ ok c)
              × Advanced k info prod (cons + 1) c)
        → (s : Option ℕ) → get_elem? info (cons % 2 ^ k) ≡ some s
        → (c : ℕ) × (advance (suc fuel) info size_mask prod cons ≡ ok c)
          × Advanced k info prod cons c
    at_slot ne rec (some pkt) e = (
      cons,
      advance_step fuel info size_mask prod cons ne (here e),
      record {
        ring = r;
        forward = omega arith;
        passed = λ p l u. absurd (omega arith);
        stopped = inr (pkt, e);
      },
    )
    at_slot ne rec none e =
        let r' : IsRing k info prod (cons + 1) = pass-IsRing r (omega (arith, r.order)) e in
        let (c, p, a) = rec r' in
        (
          c,
          advance_step fuel info size_mask prod cons ne (here e) ∙ p,
          record {
            ring = a.ring;
            forward = omega (arith, a.forward);
            passed = λ q l u. elim (ℕ_discrete q cons) [
              | yes same ↦ ap (λ t. get_elem? info (t % 2 ^ k)) same ∙ e
              | no other ↦ a.passed q (omega arith) u
            ];
            stopped = a.stopped;
          },
        )
