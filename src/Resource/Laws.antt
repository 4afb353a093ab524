-- ===== src/Resource/Laws.antt =====
-- What `alloc`, `free` and `get_window` of `class Resource` promise, over the view of a resource
-- as the set of the indices that are held.
use schedra_nic.Prelude.{
  ◌↔◌, ℕ, zero, suc, ◌+◌, ◌*◌, ◌<◌, ◌≡◌, refl, Bool, true, false, not, List, [], ◌∷◌, ◌++◌, ap,
  ◌==◌, ◌||◌, ◌&&◌, ltb, All, arith, range_from, Option, some, none,
}
use schedra_nic.Device.{ok, err, index_error}
use schedra_nic.Resource.{
  Resource, new, alloc, pop_first, free, get_window, cached_window, find_window,
}
use schedra_nic.Resource.Order.{
  IsAscending, elem, Above-IsAscending, not-elem_below, Above, Above-weaken, sort-append_first,
  elem-sort, elem-append_last, insert_sorted-IsAscending, sort-append, All-insert_sorted,
  range_from-Above, range_from-All, elem-range_from,
}

pub record IsValid (r : Resource) : Type 0 where
  pub ascending : IsAscending r.free_list
  pub in_range : All (λ i. i < r.count) r.free_list
  pub cached : All (λ (w : ℕ × ℕ). w.1 ≡ r.parent + w.0 * r.stride) r.windows

-- The index is one of the resource's, and is not free.
abbrev pub held : Resource → ℕ → Bool
held r j = ltb j r.count && not (elem j r.free_list)

range-IsAscending : (n : ℕ) → IsAscending (range_from 0 n)
range-IsAscending zero = tt
range-IsAscending (suc n) = range_from-Above 0 1 n (omega arith)

-- A new resource is valid, and none of its indices is held.
pub new_lem :
    (count parent stride : ℕ)
    → IsValid (new count parent stride) × ((j : ℕ) → held (new count parent stride) j ≡ false)
unfolding new
new_lem count parent stride = (
  record {
    ascending = range-IsAscending count;
    in_range = range_from-All count 0 count (omega arith);
    cached = tt;
  },
  λ j. ground (arith, elem-range_from j 0 count),
)

elem-in_range : (n j : ℕ) (xs : List ℕ) → All (λ i. i < n) xs → elem j xs ≡ true → j < n
elem-in_range n j [] v h = cc
elem-in_range n j (x ∷ xs) v h = ground (arith, elem-in_range n j xs)

-- What `alloc` promises when the free list is `l`.
abbrev Allocated : Resource → ℕ → Resource → Type 0
Allocated r i r' =
    IsValid r'
    × (i < r.count)
    × (held r i ≡ false)
    × ((j : ℕ) → j < i → held r j ≡ true)
    × ((j : ℕ) → held r' j ≡ (i == j || held r j))

held-free_list :
    (r : Resource) (j : ℕ) {l : List ℕ}
    → r.free_list ≡ l
    → held r j ≡ (ltb j r.count && not (elem j l))
held-free_list r j e = ap (λ l. ltb j r.count && not (elem j l)) e

pop_first_lem :
    (r : Resource) (i : ℕ) (rest : List ℕ)
    → IsValid r
    → r.free_list ≡ i ∷ rest
    → Allocated r i (record r { free_list = rest })
pop_first_lem r i rest v e = (
  record { ascending = Above-IsAscending i rest above; in_range = bounds.1; cached = v.cached },
  bounds.0,
  ground (arith, held-free_list r i e),
  λ j h. ground (arith, held-free_list r j e, elem-in_rest j h),
  λ j. ground (arith, held-free_list r j e, not-elem_below i rest above, bounds.0),
)
  where
    above : Above i rest
    above = rw e at v.ascending

    bounds : (i < r.count) × All (λ k. k < r.count) rest
    bounds = rw e at v.in_range

    elem-in_rest : (j : ℕ) → j < i → (elem j rest ≡ false) × (j < r.count)
    elem-in_rest j h =
        (not-elem_below j rest (Above-weaken j i rest (omega arith) above), omega (arith, bounds.0))

pop_first-none : (r : Resource) (l : List ℕ) → pop_first r l ≡ err index_error → l ≡ []
unfolding pop_first
pop_first-none r [] h = refl
pop_first-none r (x ∷ rest) h = cc

pop_first_full :
    {r : Resource}
    → IsValid r
    → (l : List ℕ) → r.free_list ≡ l
    → ((j : ℕ) → j < r.count → held r j ≡ true)
    → pop_first r l ≡ err index_error
unfolding pop_first
pop_first_full v [] e all = refl
pop_first_full {r} v (x ∷ xs) e all =
    ground (arith, held-free_list r x e, all x (in_front (rw e at v.in_range)))
  where
    in_front : All (λ k. k < r.count) (x ∷ xs) → x < r.count
    in_front h = h.0

pop_first-some :
    (r : Resource) (l : List ℕ) {i : ℕ} {r' : Resource}
    → pop_first r l ≡ ok (i, r')
    → (rest : List ℕ) × (l ≡ i ∷ rest) × (r' ≡ record r { free_list = rest })
unfolding pop_first
pop_first-some r [] h = cc
pop_first-some r (x ∷ rest) h = (rest, ground arith, ground arith)

-- A new resource hands out the index 0 first.
pub alloc-new :
    (n parent stride : ℕ)
    → alloc (new (suc n) parent stride)
      ≡ ok (0, record (new (suc n) parent stride) { free_list = range_from 1 n })
unfolding alloc pop_first new
alloc-new n parent stride = refl

-- `alloc` leaves the place of the windows alone.
pub alloc-place :
    (r : Resource) {r' : Resource} {i : ℕ}
    → alloc r ≡ ok (i, r')
    → (r'.parent ≡ r.parent) × (r'.stride ≡ r.stride)
unfolding alloc
alloc-place r e = let (_, _, n) = pop_first-some r r.free_list e in rw n (refl, refl)

find_window-some :
    (r : Resource) (i : ℕ) {w : ℕ} (ws : List (ℕ × ℕ))
    → All (λ (e : ℕ × ℕ). e.1 ≡ r.parent + e.0 * r.stride) ws
    → find_window i ws ≡ some w
    → w ≡ r.parent + i * r.stride
unfolding find_window
find_window-some r i [] v h = cc
find_window-some r i {w} ((j, u) ∷ ws) v h = ground (arith, find_window-some r i {w = w} ws)

-- What `get_window` promises once the cache has answered `o`.
cached_window_lem :
    {r : Resource} (i : ℕ) (o : Option ℕ)
    → IsValid r
    → find_window i r.windows ≡ o
    → ((cached_window i r o).0 ≡ r.parent + i * r.stride)
      × IsValid (cached_window i r o).1
      × ((cached_window i r o).1.free_list ≡ r.free_list)
      × (get_window i (cached_window i r o).1 ≡ cached_window i r o)
unfolding get_window
cached_window_lem {r} i (some w) v e = (find_window-some r i r.windows v.cached e, v, refl, rw e)
cached_window_lem {r} i none v e = (
  refl,
  record { ascending = v.ascending; in_range = v.in_range; cached = (refl, v.cached) },
  refl,
  ground arith,
)

module _ {r : Resource} (v : IsValid r) where
  -- `alloc` keeps the resource valid and returns an index of its range that was not held, below
  -- which every index was held; afterwards exactly that index is held besides.
  pub alloc_lem :
      {i : ℕ} {r' : Resource}
      → alloc r ≡ ok (i, r')
      → IsValid r'
        × (i < r.count)
        × (held r i ≡ false)
        × ((j : ℕ) → j < i → held r j ≡ true)
        × ((j : ℕ) → held r' j ≡ (i == j || held r j))
  unfolding alloc pop_first
  alloc_lem {i} {r'} e =
      let (rest, l, n) = pop_first-some r r.free_list e in rw n (pop_first_lem r i rest v l)

  -- `alloc` raises IndexError exactly when every index of the range is held.
  pub alloc_exhausted : (alloc r ≡ err index_error) ↔ ((j : ℕ) → j < r.count → held r j ≡ true)
  unfolding alloc
  alloc_exhausted = (
    λ e j h. ground (arith, pop_first-none r r.free_list e, held-free_list r j refl),
    λ all. pop_first_full v r.free_list refl all,
  )

  -- Freeing the index that `alloc` returned gives the resource back as it was.
  pub free-alloc : {i : ℕ} {r' : Resource} → alloc r ≡ ok (i, r') → free i r' ≡ r
  unfolding alloc free pop_first
  free-alloc {i} {r'} e =
      let (rest, l, n) = pop_first-some r r.free_list e in
      rw (n, sort-append_first i rest (rw l at v.ascending), ← l) refl

  -- Freeing a held index keeps the resource valid, and afterwards exactly that index is no longer
  -- held.
  pub free_lem :
      (i : ℕ)
      → held r i ≡ true
      → IsValid (free i r) × ((j : ℕ) → held (free i r) j ≡ (held r j && not (i == j)))
  unfolding free
  free_lem i h = (
    record {
      ascending =
          rw (sort-append i r.free_list v.ascending)
            (insert_sorted-IsAscending i r.free_list v.ascending is_held.1);
      in_range =
          rw (sort-append i r.free_list v.ascending)
            (All-insert_sorted r.count i r.free_list is_held.0 v.in_range);
      cached = v.cached;
    },
    λ j. ground (arith, elem-sort j (r.free_list ++ i ∷ []), elem-append_last j i r.free_list),
  )
    where
      is_held : (i < r.count) × (elem i r.free_list ≡ false)
      is_held = ground arith

  -- The window of an index is at `index * stride` in the parent window, whether it was cached or
  -- not; `get_window` keeps the resource valid, holds no index and frees none, and a second call
  -- returns the same window and changes nothing.
  pub get_window_lem :
      (i : ℕ)
      → ((get_window i r).0 ≡ r.parent + i * r.stride)
        × IsValid (get_window i r).1
        × ((get_window i r).1.free_list ≡ r.free_list)
        × (get_window i (get_window i r).1 ≡ get_window i r)
  unfolding get_window
  get_window_lem i = cached_window_lem i (find_window i r.windows) v refl
