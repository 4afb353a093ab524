-- ===== src/Eq/Tests.antt =====
-- A CQ is attached to a table that has another one.
use schedra_nic.Prelude.{ℕ, [], ◌∷◌, ◌≡◌, ◌≢◌, refl}
use schedra_nic.Device.{ok, err, key_error}
use schedra_nic.Eq
use schedra_nic.Eq.{Eq, attach_cq, detach_cq, cq_at}
use schedra_nic.Eq.Table.{entry, no_entry, attach_cq_lem}

abbrev one_cq : Eq
one_cq = record Eq.new { cq_table = (3, 0) ∷ [] }

no_number : cq_at 3 [] ≡ err key_error
unfolding cq_at
no_number = refl

attach_cq_lem_example :
    (cq_at 4 (attach_cq 4 1 one_cq).cq_table ≡ ok 1)
    × ((j : ℕ) → j ≢ 4 → cq_at j (attach_cq 4 1 one_cq).cq_table ≡ cq_at j one_cq.cq_table)
    × ((eq' : Eq) × (detach_cq 4 (attach_cq 4 1 one_cq) ≡ ok eq')
        × (cq_at 4 eq'.cq_table ≡ err key_error)
        × ((j : ℕ) → j ≢ 4 → cq_at j eq'.cq_table ≡ cq_at j one_cq.cq_table))
attach_cq_lem_example = attach_cq_lem 4 1 one_cq (entry 3 0 [] no_number no_entry)
