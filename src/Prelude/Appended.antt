-- ===== src/Prelude/Appended.antt =====
-- A list with one more element at its end.
use Prim.Native.Nat.{ℕ, zero, suc, ◌+◌, ◌<◌}
use mathlib.Core.Path.{◌≡◌, refl, ap, subst}
use mathlib.Core.Logic.{◌⊎◌, inl, inr}
use mathlib.Core.List.{List, [], ◌∷◌, ◌++◌}
use mathlib.Core.Option.{some}
use native.Mathlib.Omega.{arith}
use schedra_nic.Prelude.Lists.{length, get_elem?, set}
use schedra_nic.Prelude.Places.{total, same-some}

module _ {ℓ} {A : Type ℓ} where
  pub get_elem?-bound : (xs : List A) (i : ℕ) {x : A} → get_elem? xs i ≡ some x → i < length xs
  get_elem?-bound [] i h = absurd (cc)
  get_elem?-bound (y ∷ ys) zero h = omega arith
  get_elem?-bound (y ∷ ys) (suc i) h = omega (arith, get_elem?-bound ys i h)

  pub get_elem?-append_new : (xs : List A) (x : A) → get_elem? (xs ++ x ∷ []) (length xs) ≡ some x
  get_elem?-append_new [] x = refl
  get_elem?-append_new (y ∷ ys) x = get_elem?-append_new ys x

  pub get_elem?-append_old :
      (xs : List A) (i : ℕ) (x : A) {y : A}
      → get_elem? xs i ≡ some y
      → get_elem? (xs ++ x ∷ []) i ≡ some y
  get_elem?-append_old [] i x h = absurd (cc)
  get_elem?-append_old (z ∷ zs) zero x h = h
  get_elem?-append_old (z ∷ zs) (suc i) x h = get_elem?-append_old zs i x h

  -- An element is an old one, or the new one at the end.
  pub get_elem?-append_cases :
      (xs : List A) (i : ℕ) (x : A) {y : A}
      → get_elem? (xs ++ x ∷ []) i ≡ some y
      → (get_elem? xs i ≡ some y) ⊎ ((i ≡ length xs) × (x ≡ y))
  get_elem?-append_cases [] zero x h = inr (refl, same-some h)
  get_elem?-append_cases [] (suc i) x h = absurd (cc)
  get_elem?-append_cases (z ∷ zs) zero x h = inl h
  get_elem?-append_cases (z ∷ zs) (suc i) x h = elim (get_elem?-append_cases zs i x h) [
    | inl old ↦ inl old
    | inr (e, new) ↦ inr (ap suc e, new)
  ]

  pub set-append_new : (xs : List A) (x y : A) → set (xs ++ x ∷ []) (length xs) y ≡ xs ++ y ∷ []
  set-append_new [] x y = refl
  set-append_new (z ∷ zs) x y = ap (λ l. z ∷ l) (set-append_new zs x y)

  pub total-append_new :
      (f : A → ℕ) (xs : List A) (x : A) → total f (xs ++ x ∷ []) ≡ total f xs + f x
  total-append_new f [] x = omega arith
  total-append_new f (y ∷ ys) x = omega (arith, total-append_new f ys x)

  -- A property of all elements holds of the list with one more that has it.
  pub append_new-All {κ} :
      (P : A → Type κ) (xs : List A) (x : A)
      → ((i : ℕ) (y : A) → get_elem? xs i ≡ some y → P y)
      → P x
      → (i : ℕ) (y : A) → get_elem? (xs ++ x ∷ []) i ≡ some y
      → P y
  append_new-All P [] x all p zero y h = subst P (same-some h) p
  append_new-All P [] x all p (suc i) y h = absurd (cc)
  append_new-All P (z ∷ zs) x all p zero y h = all 0 y h
  append_new-All P (z ∷ zs) x all p (suc i) y h =
      append_new-All P zs x (λ j w g. all (suc j) w g) p i y h
