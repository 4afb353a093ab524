-- ===== src/Pifo/Tests.antt =====
-- Runs of the tests: responses with other metas than those that were pushed.
use schedra_nic.Prelude.{◌+◌, ◌*◌, ◌^◌, ◌≡◌, ◌↔◌, refl, ℕ, List, [], ◌∷◌, map}
use schedra_nic.Resource.{sort}
use schedra_nic.Pifo.{rev_rank, push_all, push_all_pop_all, push_and_pop_concurrent}
use schedra_nic.Pifo.Sorted.{drawn}
use schedra_nic.Pifo.Accepts.{Accepts, push_all_pop_all_iff, push_and_pop_concurrent_iff}

abbrev draws : List ℕ
draws = 9 ∷ 4 ∷ 0x10004 ∷ []

abbrev responses : List ℕ
responses = (4 * 2 ^ 24 + 3) ∷ (4 * 2 ^ 24 + 77) ∷ (9 * 2 ^ 24 + 1) ∷ []

push_all_pop_all_iff_example :
    Accepts (push_all_pop_all draws responses)
    ↔ (map rev_rank responses ≡ sort (map rev_rank (push_all 0 draws []).0))
push_all_pop_all_iff_example = push_all_pop_all_iff draws responses refl

-- The pops go against the order of the ranks, and pass.
push_and_pop_concurrent_iff_example :
    Accepts (push_and_pop_concurrent 9 ((9 * 2 ^ 24 + 1, 4) ∷ []) (4 * 2 ^ 24 + 1))
    ↔ (map rev_rank ((9 * 2 ^ 24 + 1) ∷ (4 * 2 ^ 24 + 1) ∷ []) ≡ map drawn (9 ∷ 4 ∷ []))
push_and_pop_concurrent_iff_example =
    push_and_pop_concurrent_iff 9 ((9 * 2 ^ 24 + 1, 4) ∷ []) (4 * 2 ^ 24 + 1)
