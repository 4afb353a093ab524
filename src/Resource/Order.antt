-- ===== src/Resource/Order.antt =====
-- Ascending lists of indices, and what `list.sort` does to one with an index appended.
use schedra_nic.Prelude.{
  ℕ, zero, suc, ◌+◌, ◌<◌, ◌≤◌, ◌≡◌, refl, Bool, false, List, [], ◌∷◌, ◌++◌, leb, ◌==◌, ◌||◌, ◌&&◌,
  ltb, range_from, All, arith,
}
use schedra_nic.Resource.{insert_sorted, sort}

-- Strictly ascending, and above a bound.
abbrev pub Above : ℕ → List ℕ → Type 0
Above b [] = Unit
Above b (x ∷ xs) = (b < x) × Above x xs

abbrev pub IsAscending : List ℕ → Type 0
IsAscending [] = Unit
IsAscending (x ∷ xs) = Above x xs

abbrev pub elem : ℕ → List ℕ → Bool
elem j [] = false
elem j (x ∷ xs) = x == j || elem j xs

pub Above-weaken : (a b : ℕ) (xs : List ℕ) → a ≤ b → Above b xs → Above a xs
Above-weaken a b [] h v = tt
Above-weaken a b (x ∷ xs) h v = (omega arith, v.1)

pub Above-IsAscending : (a : ℕ) (xs : List ℕ) → Above a xs → IsAscending xs
Above-IsAscending a [] v = tt
Above-IsAscending a (x ∷ xs) v = v.1

pub not-elem_below : (j : ℕ) (xs : List ℕ) → Above j xs → elem j xs ≡ false
not-elem_below j [] v = refl
not-elem_below j (x ∷ xs) v =
    ground (arith, not-elem_below j xs (Above-weaken j x xs (omega arith) v.1))

-- Inserting below everything puts the index first.
insert_sorted-below : (i : ℕ) (xs : List ℕ) → Above i xs → insert_sorted i xs ≡ i ∷ xs
unfolding insert_sorted
insert_sorted-below i [] v = refl
insert_sorted-below i (x ∷ xs) v = ground arith

-- An index that was taken from the front goes back there.
pub sort-append_first : (i : ℕ) (xs : List ℕ) → Above i xs → sort (xs ++ i ∷ []) ≡ i ∷ xs
unfolding sort insert_sorted
sort-append_first i [] v = refl
sort-append_first i (x ∷ xs) v =
    rw (sort-append_first i xs (Above-weaken i x xs (omega arith) v.1))
      (ground (arith, insert_sorted-below x xs v.1))

pub elem-insert_sorted :
    (j x : ℕ) (xs : List ℕ) → elem j (insert_sorted x xs) ≡ (x == j || elem j xs)
unfolding insert_sorted
elem-insert_sorted j x [] = refl
elem-insert_sorted j x (y ∷ ys) = ground (arith, elem-insert_sorted j x ys)

pub elem-sort : (j : ℕ) (xs : List ℕ) → elem j (sort xs) ≡ elem j xs
unfolding sort
elem-sort j [] = refl
elem-sort j (x ∷ xs) = rw (elem-insert_sorted j x (sort xs), elem-sort j xs)

pub elem-append_last : (j i : ℕ) (xs : List ℕ) → elem j (xs ++ i ∷ []) ≡ (i == j || elem j xs)
elem-append_last j i [] = refl
elem-append_last j i (x ∷ xs) = ground (arith, elem-append_last j i xs)

Above-insert_sorted :
    (b x : ℕ) (xs : List ℕ) → b < x → Above b xs → elem x xs ≡ false → Above b (insert_sorted x xs)
unfolding insert_sorted
Above-insert_sorted b x [] h v n = (h, tt)
Above-insert_sorted b x (y ∷ ys) h v n = ground (arith, Above-insert_sorted y x ys)

pub insert_sorted-IsAscending :
    (x : ℕ) (xs : List ℕ) → IsAscending xs → elem x xs ≡ false → IsAscending (insert_sorted x xs)
unfolding insert_sorted
insert_sorted-IsAscending x [] v n = tt
insert_sorted-IsAscending x (y ∷ ys) v n = ground (arith, Above-insert_sorted y x ys)

insert_sorted_twice :
    (x y : ℕ) (xs : List ℕ)
    → insert_sorted x (insert_sorted y xs) ≡ insert_sorted y (insert_sorted x xs)
unfolding insert_sorted
insert_sorted_twice x y [] = ground arith
insert_sorted_twice x y (z ∷ zs) = ground (arith, insert_sorted_twice x y zs)

-- An ascending list is its own sorted list, so appending and sorting is inserting.
pub sort-append : (x : ℕ) (xs : List ℕ) → IsAscending xs → sort (xs ++ x ∷ []) ≡ insert_sorted x xs
unfolding sort
sort-append x [] v = refl
sort-append x (y ∷ ys) v = rw (
  sort-append x ys (Above-IsAscending y ys v),
  insert_sorted_twice y x ys,
  insert_sorted-below y ys v,
)

pub All-insert_sorted :
    (n x : ℕ) (xs : List ℕ) → x < n → All (λ i. i < n) xs → All (λ i. i < n) (insert_sorted x xs)
unfolding insert_sorted
All-insert_sorted n x [] h v = (h, tt)
All-insert_sorted n x (y ∷ ys) h v = ground (arith, All-insert_sorted n x ys)

pub range_from-Above : (b i n : ℕ) → b < i → Above b (range_from i n)
range_from-Above b i zero h = tt
range_from-Above b i (suc n) h = (h, range_from-Above i (i + 1) n (omega arith))

pub range_from-All : (m i n : ℕ) → i + n ≤ m → All (λ k. k < m) (range_from i n)
range_from-All m i zero h = tt
range_from-All m i (suc n) h = (omega arith, range_from-All m (i + 1) n (omega arith))

pub elem-range_from : (j i n : ℕ) → elem j (range_from i n) ≡ (leb i j && ltb j (i + n))
elem-range_from j i zero = ground arith
elem-range_from j i (suc n) = ground (arith, elem-range_from j (i + 1) n)
