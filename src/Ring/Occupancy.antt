-- ===== src/Ring/Occupancy.antt =====
-- How many slots hold a packet: at most as many as descriptors are outstanding.
use native.Mathlib.Nat.{add-mod_right, mod-eq_of_lt}
use schedra_nic.Prelude.{
  ℕ, zero, suc, ◌+◌, ◌-◌, ◌%◌, ◌≤◌, ◌<◌, ◌^◌, ◌≡◌, refl, ap, ◌∙◌, sym, [], ◌∷◌, Option, none, some,
  length, get_elem?, set, arith, replicate,
}
use schedra_nic.Ring.{Slots}
use schedra_nic.Ring.Slots.{IsRing}

-- The slots that hold a packet.
abbrev pub occupied : Slots → ℕ
occupied [] = 0
occupied (none ∷ s) = occupied s
occupied (some p ∷ s) = occupied s + 1

pub occupied-length : (info : Slots) → occupied info ≤ length info
occupied-length [] = omega arith
occupied-length (none ∷ s) = omega (arith, occupied-length s)
occupied-length (some p ∷ s) = omega (arith, occupied-length s)

pub occupied-replicate : (n : ℕ) → occupied (replicate n none) ≡ 0
occupied-replicate zero = refl
occupied-replicate (suc n) = occupied-replicate n

pub occupied-set-some :
    (info : Slots) (i p : ℕ)
    → get_elem? info i ≡ some none
    → occupied (set info i (some p)) ≡ occupied info + 1
occupied-set-some [] i p h = cc
occupied-set-some (none ∷ s) zero p h = refl
occupied-set-some (some q ∷ s) zero p h = absurd (cc)
occupied-set-some (none ∷ s) (suc i) p h = occupied-set-some s i p h
occupied-set-some (some q ∷ s) (suc i) p h = omega (arith, occupied-set-some s i p h)

pub occupied-set-none :
    (info : Slots) (i p : ℕ)
    → get_elem? info i ≡ some (some p)
    → occupied (set info i none) + 1 ≡ occupied info
occupied-set-none [] i p h = cc
occupied-set-none (none ∷ s) zero p h = absurd (cc)
occupied-set-none (some q ∷ s) zero p h = refl
occupied-set-none (none ∷ s) (suc i) p h = occupied-set-none s i p h
occupied-set-none (some q ∷ s) (suc i) p h = omega (arith, occupied-set-none s i p h)

-- The sum of n values of a function, from a on.
abbrev sum : (ℕ → ℕ) → ℕ → ℕ → ℕ
sum f a zero = 0
sum f a (suc n) = f a + sum f (a + 1) n

sum-split : (f : ℕ → ℕ) (a n m k : ℕ) → n + m ≡ k → sum f a k ≡ sum f a n + sum f (a + n) m
sum-split f a zero m k e =
    omega (arith, ap (sum f a) (sym e ∙ zero_add), ap (λ b. sum f b m) add_zero)
  where
    zero_add : 0 + m ≡ m
    zero_add = omega arith

    add_zero : a ≡ a + 0
    add_zero = omega arith
sum-split f a (suc n) m zero e = absurd (omega arith)
sum-split f a (suc n) m (suc k) e =
    omega (arith, sum-split f (a + 1) n m k (omega arith), ap (λ b. sum f b m) shift)
  where
    shift : a + 1 + n ≡ a + suc n
    shift = omega arith

sum-suc : (f : ℕ → ℕ) (a n : ℕ) → sum (λ i. f (suc i)) a n ≡ sum f (suc a) n
sum-suc f a zero = refl
sum-suc f a (suc n) = omega (arith, sum-suc f (a + 1) n, ap (λ b. sum f b n) shift)
  where
    shift : suc (a + 1) ≡ suc a + 1
    shift = omega arith

sum-le : (f : ℕ → ℕ) (a n : ℕ) → ((i : ℕ) → f i ≤ 1) → sum f a n ≤ n
sum-le f a zero b = omega arith
sum-le f a (suc n) b = omega (arith, b a, sum-le f (a + 1) n b)

sum-agree :
    (f g : ℕ → ℕ) (a n : ℕ) → ((i : ℕ) → a ≤ i → i < a + n → f i ≡ g i) → sum f a n ≡ sum g a n
sum-agree f g a zero e = refl
sum-agree f g a (suc n) e = omega (
  arith,
  e a (omega arith) (omega arith),
  sum-agree f g (a + 1) n (λ i l u. e i (omega arith) (omega arith)),
)

sum-zero : (f : ℕ → ℕ) (a n : ℕ) → ((i : ℕ) → a ≤ i → i < a + n → f i ≡ 0) → sum f a n ≡ 0
sum-zero f a zero z = refl
sum-zero f a (suc n) z = omega (
  arith,
  z a (omega arith) (omega arith),
  sum-zero f (a + 1) n (λ i l u. z i (omega arith) (omega arith)),
)

-- A periodic function has the same sum over any period.
sum-periodic : (f : ℕ → ℕ) (n a : ℕ) → ((i : ℕ) → f (i + n) ≡ f i) → sum f a n ≡ sum f 0 n
sum-periodic f n zero p = refl
sum-periodic f n (suc a) p = omega (
  arith,
  sum-periodic f n a p,
  sum-split f a 1 n (n + 1) (omega arith),
  sum-split f a n 1 (n + 1) refl,
  p a,
  ap (λ b. sum f b n) next,
)
  where
    next : a + 1 ≡ suc a
    next = omega arith

-- 1 for a slot with a packet.
abbrev load : Option (Option ℕ) → ℕ
load none = 0
load (some none) = 0
load (some (some p)) = 1

load-le : (o : Option (Option ℕ)) → load o ≤ 1
load-le none = omega arith
load-le (some none) = omega arith
load-le (some (some p)) = omega arith

occupied-sum : (info : Slots) → occupied info ≡ sum (λ i. load (get_elem? info i)) 0 (length info)
occupied-sum [] = refl
occupied-sum (none ∷ s) =
    omega (arith, occupied-sum s, sum-suc (λ i. load (get_elem? (none ∷ s) i)) 0 (length s))
occupied-sum (some p ∷ s) =
    omega (arith, occupied-sum s, sum-suc (λ i. load (get_elem? (some p ∷ s) i)) 0 (length s))

module _ {k : ℕ} {info : Slots} {prod cons : ℕ} (r : IsRing k info prod cons) where
  at_position : ℕ → ℕ
  at_position i = load (get_elem? info (i % 2 ^ k))

  whole_ring : occupied info ≡ sum at_position cons (2 ^ k)
  unfolding at_position
  whole_ring =
      occupied-sum info
      ∙ ap (sum (λ i. load (get_elem? info i)) 0) r.slots
      ∙ sum-agree (λ i. load (get_elem? info i)) at_position 0 (2 ^ k)
          (λ i l u. ap (λ j. load (get_elem? info j)) (sym (mod-eq_of_lt (in_ring i u))))
      ∙ sym (
          sum-periodic at_position (2 ^ k) cons
            (λ i. ap (λ j. load (get_elem? info j)) (add-mod_right i (2 ^ k))))
    where
      in_ring : (i : ℕ) → i < 0 + 2 ^ k → i < 2 ^ k
      in_ring i u = omega arith

  -- The slots of a ring that hold a packet are no more than the descriptors outstanding.
  pub occupied_le : occupied info + cons ≤ prod
  unfolding at_position
  occupied_le =
      let d : ℕ = prod - cons in
      let gap =
        sum-zero at_position (cons + d) (2 ^ k - d) (λ i l u.
          ap load (r.vacant i (omega (arith, r.order)) (omega (arith, r.room, r.order)))) in
      omega (
        arith,
        whole_ring,
        sum-split at_position cons d (2 ^ k - d) (2 ^ k) (omega (arith, r.room)),
        sum-le at_position cons d (λ i. load-le (get_elem? info (i % 2 ^ k))),
        gap,
        r.order,
      )
