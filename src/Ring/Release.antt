-- ===== src/Ring/Release.antt =====
-- `free_buf` of `class Txq` and `class Rxq`: a ring that is given up gives every buffer back.
use schedra_nic.Prelude.{
  ℕ, zero, suc, ◌+◌, ◌-◌, ◌%◌, ◌≤◌, ◌<◌, ◌^◌, ◌≡◌, ◌≢◌, refl, ap, ◌∙◌, none, some, get_elem?, set,
  length, arith, bit_and, and_mask, get_elem?-set_self, get_elem?-set_ne, ℕ_discrete, two_pow_pos,
}
use native.Mathlib.Nat.{mod-lt}
use schedra_nic.Device.{ok}
use schedra_nic.Packets.{Packets}
use schedra_nic.Packets.Ownership.{Owns, free_pkt_lem}
use schedra_nic.Ring.{Slots, free_desc, free_buf}
use schedra_nic.Ring.Window.{mod-ne_of_window}
use schedra_nic.Ring.Slots.{holds, holds-set-none, IsRing, clear-IsRing, pass-IsRing, slot_at-some}

-- Every slot between the pointers holds a packet.
abbrev pub IsFilled : ℕ → Slots → ℕ → ℕ → Type 0
IsFilled k info prod cons =
    (p : ℕ) → cons ≤ p → p < prod → (pkt : ℕ) × (get_elem? info (p % 2 ^ k) ≡ some (some pkt))

-- The slot at the consumer pointer is freed, and the pointer passes it.
release_one :
    (other : ℕ → ℕ) {k : ℕ} {info : Slots} {prod cons : ℕ} {packets : Packets}
    → IsRing k info prod cons
    → IsFilled k info prod cons
    → Owns packets (λ j. other j + holds info j)
    → cons < prod
    → (packets' : Packets) × (free_desc (cons % 2 ^ k) info packets
        ≡ ok (set info (cons % 2 ^ k) none, packets'))
      × IsRing k (set info (cons % 2 ^ k) none) prod (cons + 1)
      × IsFilled k (set info (cons % 2 ^ k) none) prod (cons + 1)
      × Owns packets' (λ j. other j + holds (set info (cons % 2 ^ k) none) j)
unfolding free_desc
release_one other {k} {info} {prod} {cons} {packets} r full owns more =
    let (pkt, e) = full cons (omega arith) more in
    let (packets', f, owns', _) =
      free_pkt_lem {after = λ j. other j + holds (set info (cons % 2 ^ k) none) j} pkt owns
        (λ j. omega (arith, holds-set-none info (cons % 2 ^ k) pkt j e)) in
    (
      packets',
      rw (slot_at-some info (cons % 2 ^ k) e, f) refl,
      pass-IsRing (clear-IsRing r (cons % 2 ^ k)) more cleared,
      λ p l u.
          let (q, s) = full p (omega arith) u in (q, get_elem?-set_ne info none (apart p l u) ∙ s),
      owns',
    )
  where
    in_range : cons % 2 ^ k < length info
    in_range = rw r.slots (mod-lt cons (two_pow_pos k))

    cleared : get_elem? (set info (cons % 2 ^ k) none) (cons % 2 ^ k) ≡ some none
    cleared = get_elem?-set_self info (cons % 2 ^ k) none in_range

    apart : (p : ℕ) → cons + 1 ≤ p → p < prod → cons % 2 ^ k ≢ p % 2 ^ k
    apart p l u = mod-ne_of_window (2 ^ k) cons p (omega arith) (omega (arith, r.room))

-- On a ring whose outstanding slots all hold packets, with one round for each of them, `free_buf`
-- returns: the consumer pointer stands at the producer's, the ring is well formed there and so
-- wholly empty, and every packet buffer is again in one place.
pub free_buf_lem :
    (other : ℕ → ℕ) {k : ℕ} {prod : ℕ} (fuel cons size_mask : ℕ) {info : Slots} {packets : Packets}
    → IsRing k info prod cons
    → IsFilled k info prod cons
    → Owns packets (λ j. other j + holds info j)
    → prod ≤ cons + fuel
    → size_mask ≡ 2 ^ k - 1
    → (info' : Slots) × (packets' : Packets) × (free_buf fuel size_mask prod cons info packets
        ≡ ok (prod, info', packets'))
      × IsRing k info' prod prod
      × Owns packets' (λ j. other j + holds info' j)
unfolding free_buf
free_buf_lem other {k} {prod} zero cons size_mask {info} {packets} r full owns f m =
    let same : cons ≡ prod = omega (arith, r.order) in
    (info, packets, rw same (ground arith), rw same at r, owns)
free_buf_lem other {k} {prod} (suc fuel) cons size_mask {info} {packets} r full owns f m =
    elim (ℕ_discrete cons prod) [
      | yes same ↦ (info, packets, rw same (ground arith), rw same at r, owns)
      | no ne ↦
          let (packets1, e, r', full', owns') =
            release_one other r full owns (omega (arith, r.order)) in
          let (info', packets', rest, ring', owned) =
            free_buf_lem other fuel (cons + 1) size_mask r' full' owns' (omega arith) m in
          let index : bit_and cons size_mask ≡ cons % 2 ^ k =
            ap (bit_and cons) m ∙ and_mask k cons in
          (info', packets', rw (index, e, rest) (ground arith), ring', owned)
    ]
