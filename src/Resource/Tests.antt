-- ===== src/Resource/Tests.antt =====
-- Runs of `class Resource`, and its laws at concrete resources.
use schedra_nic.Prelude.{◌<◌, ◌↔◌, ◌≡◌, refl, true, false, not, [], ◌∷◌, arith, ◌==◌, ◌||◌, ◌&&◌, ℕ}
use schedra_nic.Device.{ok, err, index_error}
use schedra_nic.Resource.{
  Resource, alloc, free, get_window, sort, insert_sorted, pop_first, find_window, cached_window,
}
use schedra_nic.Resource.Laws.{IsValid, held, alloc_lem, alloc_exhausted, free-alloc, free_lem}

-- Four queues, of which 0 and 2 are taken.
abbrev some_taken : Resource
some_taken = record {
  count = 4;
  parent = 0x1000;
  stride = 32;
  windows = (2, 0x1040) ∷ [];
  free_list = 1 ∷ 3 ∷ [];
}

some_taken-IsValid : IsValid some_taken
some_taken-IsValid = record {
  ascending = (omega arith, tt);
  in_range = (omega arith, (omega arith, tt));
  cached = (refl, tt);
}

alloc_run : alloc some_taken ≡ ok (1, record some_taken { free_list = 3 ∷ [] })
unfolding alloc pop_first
alloc_run = refl

free_run : (free 2 some_taken).free_list ≡ 1 ∷ 2 ∷ 3 ∷ []
unfolding free sort insert_sorted
free_run = refl

get_window_run : (get_window 3 some_taken).0 ≡ 0x1060
unfolding get_window find_window cached_window
get_window_run = refl

alloc_lem_example :
    IsValid (record some_taken { free_list = 3 ∷ [] })
    × (1 < 4)
    × (held some_taken 1 ≡ false)
    × ((j : ℕ) → j < 1 → held some_taken j ≡ true)
    × ((j : ℕ) → held (record some_taken { free_list = 3 ∷ [] }) j ≡ (1 == j || held some_taken j))
alloc_lem_example = alloc_lem some_taken-IsValid alloc_run

alloc_exhausted_example :
    (alloc some_taken ≡ err index_error) ↔ ((j : ℕ) → j < 4 → held some_taken j ≡ true)
alloc_exhausted_example = alloc_exhausted some_taken-IsValid

free-alloc_example : free 1 (record some_taken { free_list = 3 ∷ [] }) ≡ some_taken
free-alloc_example = free-alloc some_taken-IsValid alloc_run

free_lem_example :
    IsValid (free 2 some_taken)
    × ((j : ℕ) → held (free 2 some_taken) j ≡ (held some_taken j && not (2 == j)))
free_lem_example = free_lem some_taken-IsValid 2 refl
