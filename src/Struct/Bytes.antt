-- ===== src/Struct/Bytes.antt =====
-- Reading back what was written to a buffer, and that nothing else changed.
use native.Mathlib.Nat.{pow-suc, zero-add, add-zero}
use schedra_nic.Prelude.{
  ℕ, zero, suc, ◌+◌, ◌/◌, ◌^◌, ◌≤◌, ◌<◌, ◌≡◌, refl, ap, ap₂, ◌∙◌, sym, ◌⊎◌, inl, inr, List, [], ◌∷◌,
  ◌++◌, length, arith, ltb, subst, ltb→lt, lt→ltb, All, if◌then◌else◌, ◌==◌, Bool-cases,
}
use schedra_nic.Device.{Error, ok, err}
use schedra_nic.Struct.{Bytes, le_bytes, from_le, poke, peek, word, pack_into}

pub length-le_bytes : (n v : ℕ) → length (le_bytes n v) ≡ n
length-le_bytes zero v = refl
length-le_bytes (suc n) v = ap suc (length-le_bytes n (v / 256))

pub from_le-le_bytes : (n v : ℕ) → v < 256 ^ n → from_le (le_bytes n v) ≡ v
from_le-le_bytes zero v h = omega arith
from_le-le_bytes (suc n) v h =
    omega (arith, from_le-le_bytes n (v / 256) (omega (arith, pow-suc 256 n)))

poke_below : (m : Bytes) (a : ℕ) (bs : List ℕ) (j : ℕ) → j < a → poke m a bs j ≡ m j
unfolding poke
poke_below m a [] j h = refl
poke_below m a (b ∷ bs) j h =
    ground (arith, poke_below (λ k. if a == k then b else m k) (a + 1) bs j)

poke_above : (m : Bytes) (a : ℕ) (bs : List ℕ) (j : ℕ) → a + length bs ≤ j → poke m a bs j ≡ m j
unfolding poke
poke_above m a [] j h = refl
poke_above m a (b ∷ bs) j h =
    ground (arith, poke_above (λ k. if a == k then b else m k) (a + 1) bs j)

-- What was written is read back.
pub peek-poke_self : (m : Bytes) (a : ℕ) (bs : List ℕ) → peek (poke m a bs) a (length bs) ≡ bs
unfolding poke peek
peek-poke_self m a [] = refl
peek-poke_self m a (b ∷ bs) =
    ap₂ ◌∷◌ (poke_below (λ k. if a == k then b else m k) (a + 1) bs a (omega arith) ∙ ground arith)
      (peek-poke_self (λ k. if a == k then b else m k) (a + 1) bs)

-- The ranges do not meet.
abbrev pub Apart : ℕ → ℕ → ℕ → ℕ → Type 0
Apart a n b k = (b + k ≤ a) ⊎ (a + n ≤ b)

-- A write changes nothing outside its range.
pub peek-poke-Apart :
    (m : Bytes) (a : ℕ) (bs : List ℕ) (b k : ℕ)
    → Apart a (length bs) b k
    → peek (poke m a bs) b k ≡ peek m b k
unfolding peek
peek-poke-Apart m a bs b zero h = refl
peek-poke-Apart m a bs b (suc k) h =
    ap₂ ◌∷◌ (at_first h) (peek-poke-Apart m a bs (b + 1) k (later h))
  where
    at_first : Apart a (length bs) b (suc k) → poke m a bs b ≡ m b
    at_first (inl l) = poke_below m a bs b (omega arith)
    at_first (inr r) = poke_above m a bs b r

    later : Apart a (length bs) b (suc k) → Apart a (length bs) (b + 1) k
    later (inl l) = inl (omega arith)
    later (inr r) = inr (omega arith)

pub peek-append : (m : Bytes) (a n k : ℕ) → peek m a (n + k) ≡ peek m a n ++ peek m (a + n) k
unfolding peek
peek-append m a zero k = ap (peek m a) (zero-add k) ∙ ap (λ b. peek m b k) (sym (add-zero a))
peek-append m a (suc n) k =
    ap (peek m a) shift
    ∙ ap (λ bs. m a ∷ bs)
        (peek-append m (a + 1) n k ∙ ap (λ b. peek m (a + 1) n ++ peek m b k) next)
  where
    shift : suc n + k ≡ suc (n + k)
    shift = omega arith

    next : a + 1 + n ≡ a + suc n
    next = omega arith

-- One field of a buffer reads back as the number that was written there.
pub word-poke_self : (m : Bytes) (a w v : ℕ) → v < 256 ^ w → word (poke m a (le_bytes w v)) a w ≡ v
unfolding word
word-poke_self m a w v h =
    subst (λ k. from_le (peek (poke m a (le_bytes w v)) a k) ≡ v) (length-le_bytes w v)
      (rw peek-poke_self (from_le-le_bytes w v h))

pub word-poke-Apart :
    (m : Bytes) (a w v b k : ℕ) → Apart a w b k → word (poke m a (le_bytes w v)) b k ≡ word m b k
unfolding word
word-poke-Apart m a w v b k h =
    ap from_le (peek-poke-Apart m a (le_bytes w v) b k (rw length-le_bytes h))

-- The bytes that a list of fields takes.
abbrev pub width : List (ℕ × ℕ) → ℕ
width [] = 0
width ((w, v) ∷ fs) = w + width fs

err-ne-ok {ℓ} : {A : Type ℓ} {a : A} {e : Error} → err e ≡ ok a → ⊥
err-ne-ok h = cc

-- The first field was in range, and the rest was packed behind it.
pub pack_into-cons :
    (m : Bytes) (a w v : ℕ) (fs : List (ℕ × ℕ)) {m' : Bytes}
    → pack_into m a ((w, v) ∷ fs) ≡ ok m'
    → (v < 256 ^ w) × (pack_into (poke m a (le_bytes w v)) (a + w) fs ≡ ok m')
unfolding pack_into
pack_into-cons m a w v fs h = elim (Bool-cases (ltb v (256 ^ w))) [
  | inl fits ↦ (ltb→lt v (256 ^ w) fits, rw fits at h)
  | inr big ↦ absurd (err-ne-ok (rw big at h))
]

pack_into-nil : (m : Bytes) (a : ℕ) {m' : Bytes} → pack_into m a [] ≡ ok m' → m ≡ m'
unfolding pack_into
pack_into-nil m a h = cc

-- Packing changes nothing outside the bytes of the fields.
pub pack_into-Apart :
    (m : Bytes) (a : ℕ) (fs : List (ℕ × ℕ)) {m' : Bytes} (b k : ℕ)
    → pack_into m a fs ≡ ok m'
    → Apart a (width fs) b k
    → word m' b k ≡ word m b k
pack_into-Apart m a [] b k h p = ap (λ (t : Bytes). word t b k) (sym (pack_into-nil m a h))
pack_into-Apart m a ((w, v) ∷ fs) {m'} b k h p =
    let (fits, rest) = pack_into-cons m a w v fs h in
    pack_into-Apart (poke m a (le_bytes w v)) (a + w) fs b k rest (later p)
    ∙ word-poke-Apart m a w v b k (first p)
  where
    later : Apart a (w + width fs) b k → Apart (a + w) (width fs) b k
    later (inl l) = inl (omega arith)
    later (inr r) = inr (omega arith)

    first : Apart a (w + width fs) b k → Apart a w b k
    first (inl l) = inl l
    first (inr r) = inr (omega arith)

-- The first field reads back.
pub pack_into_first :
    (m : Bytes) (a w v : ℕ) (fs : List (ℕ × ℕ)) {m' : Bytes}
    → pack_into m a ((w, v) ∷ fs) ≡ ok m'
    → word m' a w ≡ v
pack_into_first m a w v fs h =
    let (fits, rest) = pack_into-cons m a w v fs h in
    pack_into-Apart (poke m a (le_bytes w v)) (a + w) fs a w rest (inl (omega arith))
    ∙ word-poke_self m a w v fits

-- Fields that all fit are packed.
pub pack_into_total :
    (m : Bytes) (a : ℕ) (fs : List (ℕ × ℕ))
    → All (λ (f : ℕ × ℕ). f.1 < 256 ^ f.0) fs
    → (m' : Bytes) × (pack_into m a fs ≡ ok m')
unfolding pack_into
pack_into_total m a [] h = (m, refl)
pack_into_total m a ((w, v) ∷ fs) h =
    rw (lt→ltb v (256 ^ w) h.0) (pack_into_total (poke m a (le_bytes w v)) (a + w) fs h.1)
