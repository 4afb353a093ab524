-- ===== src/Resource/Stock.antt =====
-- How many free indices `class Resource` has, and what `alloc` and `get_window` leave of them.
use schedra_nic.Prelude.{
  ℕ, suc, ◌+◌, ◌≤◌, ◌<◌, ◌≡◌, refl, ap, ◌∙◌, sym, List, [], ◌∷◌, length, arith,
}
use schedra_nic.Device.{ok}
use schedra_nic.Resource.{Resource, alloc, pop_first, get_window}
use schedra_nic.Resource.Laws.{IsValid, alloc_lem, get_window_lem}

-- At least n indices are free.
pub record Stocked (r : Resource) (n : ℕ) : Type 0 where
  pub valid : IsValid r
  pub free : n ≤ length r.free_list

pub Stocked-le : {r : Resource} {m n : ℕ} → m ≤ n → Stocked r n → Stocked r m
Stocked-le le s = record { valid = s.valid; free = omega (arith, s.free) }

pop_first-length :
    (r : Resource) (l : List ℕ) {i : ℕ} {r' : Resource}
    → pop_first r l ≡ ok (i, r')
    → length l ≡ length r'.free_list + 1
unfolding pop_first
pop_first-length r [] e = absurd (cc)
pop_first-length r (j ∷ rest) e = ground arith

pop_first_total :
    (r : Resource) (l : List ℕ)
    → 0 < length l
    → (i : ℕ) × (r' : Resource) × (pop_first r l ≡ ok (i, r'))
unfolding pop_first
pop_first_total r [] h = absurd (omega arith)
pop_first_total r (i ∷ rest) h = (i, record r { free_list = rest }, refl)

-- A window is cached beside the free indices.
pub window_beside :
    {r r' : Resource} {i : ℕ}
    → IsValid r
    → alloc r ≡ ok (i, r')
    → length r.free_list ≡ length (get_window i r').1.free_list + 1
unfolding alloc
window_beside {r} {r'} {i} v a =
    let (_, _, same, _) = get_window_lem (alloc_lem v a).0 i in
    pop_first-length r r.free_list a ∙ ap (λ l. length l + 1) (sym same)

-- While an index is free, it is handed out, and the others stay.
pub alloc-Stocked :
    {r : Resource} {n : ℕ}
    → Stocked r (suc n)
    → (i : ℕ) × (r' : Resource) × (alloc r ≡ ok (i, r')) × Stocked (get_window i r').1 n
unfolding alloc
alloc-Stocked {r} s =
    let (i, r', a) = pop_first_total r r.free_list (omega (arith, s.free)) in
    let (_, valid, _, _) = get_window_lem (alloc_lem s.valid a).0 i in
    (i, r', a, record { valid = valid; free = omega (arith, s.free, window_beside s.valid a) })
