-- ===== src/Resource.antt =====
-- `class Resource` of tb/mqnic_core_pcie_us_schedule/mqnic.py: the queue indices of one kind, handed
-- out lowest first, and the register window of each.
pub mod Order
pub mod Laws
pub mod Stock
mod Tests
use schedra_nic.Prelude.{
  ℕ, ◌+◌, ◌*◌, Bool, true, false, List, [], ◌∷◌, ◌++◌, leb, ◌==◌, if◌then◌else◌, range_from, Option,
  none, some,
}
use schedra_nic.Device.{Result, ok, err, index_error}

-- `parent` is the base address of the parent window, `windows` the dict of windows made so far.
pub record Resource : Type 0 where
  pub count : ℕ
  pub parent : ℕ
  pub stride : ℕ
  pub windows : List (ℕ × ℕ)
  pub free_list : List ℕ

-- Resource.__init__
unfoldable pub new : ℕ → ℕ → ℕ → Resource
new count parent stride = record {
  count = count;
  parent = parent;
  stride = stride;
  windows = [];
  free_list = range_from 0 count;
}

-- `self.free_list.pop(0)`, IndexError on an empty list
pop_first : Resource → List ℕ → Result (ℕ × Resource)
pop_first r [] = err index_error
pop_first r (i ∷ rest) = ok (i, record r { free_list = rest })

unfoldable pub alloc : Resource → Result (ℕ × Resource)
unfolding pop_first
alloc r = pop_first r r.free_list

-- list.sort() on integers: the ascending list of the same elements
unfoldable pub insert_sorted : ℕ → List ℕ → List ℕ
insert_sorted x [] = x ∷ []
insert_sorted x (y ∷ ys) = if leb x y then x ∷ y ∷ ys else y ∷ insert_sorted x ys

unfoldable pub sort : List ℕ → List ℕ
sort [] = []
sort (x ∷ xs) = insert_sorted x (sort xs)

unfoldable pub free : ℕ → Resource → Resource
unfolding sort insert_sorted
free index r = record r { free_list = sort (r.free_list ++ index ∷ []) }

unfoldable pub get_count : Resource → ℕ
get_count r = r.count

unfoldable pub find_window : ℕ → List (ℕ × ℕ) → Option ℕ
find_window i [] = none
find_window i ((j, w) ∷ ws) = if j == i then some w else find_window i ws

cached_window : ℕ → Resource → Option ℕ → ℕ × Resource
cached_window index r (some w) = (w, r)
cached_window index r none =
    let w = r.parent + index * r.stride in (w, record r { windows = (index, w) ∷ r.windows })

-- The window and the resource with its window cached.
unfoldable pub get_window : ℕ → Resource → ℕ × Resource
unfolding cached_window find_window
get_window index r = cached_window index r (find_window index r.windows)
