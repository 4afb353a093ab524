-- ===== src/Prelude/Places.antt =====
-- Elements at their places: what stands where after `set`, and sums over the elements.
use Prim.Native.Nat.{ℕ, zero, suc, ◌+◌, ◌≤◌}
use mathlib.Core.Path.{◌≡◌, refl, ap}
use mathlib.Core.Logic.{◌≢◌, ◌⊎◌, inl, inr}
use mathlib.Core.List.{List, [], ◌∷◌}
use mathlib.Core.Option.{some}
use native.Mathlib.Omega.{arith}
use schedra_nic.Prelude.Lists.{get_elem?, set}

-- What stands where after `set`.
module _ {ℓ} {A : Type ℓ} where
  pub same-some : {x y : A} → some x ≡ some y → x ≡ y
  same-some h = cc

  pub get_elem?-set_here :
      (xs : List A) (i : ℕ) {x : A} (v : A)
      → get_elem? xs i ≡ some x
      → get_elem? (set xs i v) i ≡ some v
  get_elem?-set_here [] i v h = absurd (cc)
  get_elem?-set_here (y ∷ ys) zero v h = refl
  get_elem?-set_here (y ∷ ys) (suc i) v h = get_elem?-set_here ys i v h

  -- An element after `set` is the new one, or an old one of another place.
  pub get_elem?-set_cases :
      (xs : List A) (i j : ℕ) (v : A) {y : A}
      → get_elem? (set xs i v) j ≡ some y
      → ((i ≡ j) × (v ≡ y)) ⊎ ((i ≢ j) × (get_elem? xs j ≡ some y))
  get_elem?-set_cases [] i j v h = absurd (cc)
  get_elem?-set_cases (x ∷ xs) zero zero v h = inl (refl, same-some h)
  get_elem?-set_cases (x ∷ xs) zero (suc j) v h = inr ((λ e. absurd (omega arith)), h)
  get_elem?-set_cases (x ∷ xs) (suc i) zero v h = inr ((λ e. absurd (omega arith)), h)
  get_elem?-set_cases (x ∷ xs) (suc i) (suc j) v h = elim (get_elem?-set_cases xs i j v h) [
    | inl (e, w) ↦ inl (ap suc e, w)
    | inr (ne, w) ↦ inr ((λ e. ne (omega arith)), w)
  ]

  abbrev pub total : (A → ℕ) → List A → ℕ
  total f [] = 0
  total f (x ∷ xs) = f x + total f xs

  pub total-le :
      (f : A → ℕ) (xs : List A) (i : ℕ) {x : A} → get_elem? xs i ≡ some x → f x ≤ total f xs
  total-le f [] i h = absurd (cc)
  total-le f (y ∷ ys) zero h = omega (arith, ap f (same-some h))
  total-le f (y ∷ ys) (suc i) h = omega (arith, total-le f ys i h)

  pub total-set :
      (f : A → ℕ) (xs : List A) (i : ℕ) {x : A} (v : A)
      → get_elem? xs i ≡ some x
      → total f (set xs i v) + f x ≡ total f xs + f v
  total-set f [] i v h = absurd (cc)
  total-set f (y ∷ ys) zero v h = omega (arith, ap f (same-some h))
  total-set f (y ∷ ys) (suc i) v h = omega (arith, total-set f ys i v h)

  -- Where f is at most g everywhere, so are the totals, also of all places but one.
  pub total_mono :
      (f g : A → ℕ) (xs : List A)
      → ((i : ℕ) (x : A) → get_elem? xs i ≡ some x → f x ≤ g x)
      → total f xs ≤ total g xs
  total_mono f g [] le = omega arith
  total_mono f g (y ∷ ys) le =
      omega (arith, le 0 y refl, total_mono f g ys (λ i x h. le (suc i) x h))

  pub total-others :
      (f g : A → ℕ) (xs : List A) (i : ℕ) {x : A}
      → ((i : ℕ) (x : A) → get_elem? xs i ≡ some x → f x ≤ g x)
      → get_elem? xs i ≡ some x
      → total f xs + g x ≤ total g xs + f x
  total-others f g [] i le h = absurd (cc)
  total-others f g (y ∷ ys) zero le h =
      omega
        (arith, ap f (same-some h), ap g (same-some h), total_mono f g ys (λ i x h. le (suc i) x h))
  total-others f g (y ∷ ys) (suc i) le h =
      omega (arith, le 0 y refl, total-others f g ys i (λ i x h. le (suc i) x h) h)
