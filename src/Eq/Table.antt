-- ===== src/Eq/Table.antt =====
-- `Eq.attach_cq` and `Eq.detach_cq`: the table from the number of a CQ to the CQ.
use schedra_nic.Prelude.{ℕ, List, [], ◌∷◌, ◌≡◌, ◌≢◌, ◌∙◌, refl, arith, subst, ℕ_discrete}
use schedra_nic.Device.{ok, err, key_error}
use schedra_nic.Eq.{Eq, set_key, attach_cq, del_key, detach_cq, cq_at}

cq_at-set_key : (k v : ℕ) (t : List (ℕ × ℕ)) → cq_at k (set_key k v t) ≡ ok v
unfolding cq_at set_key
cq_at-set_key k v [] = ground arith
cq_at-set_key k v ((j, w) ∷ t) = ground (arith, cq_at-set_key k v t)

set_key_others : (k v j : ℕ) (t : List (ℕ × ℕ)) → j ≢ k → cq_at j (set_key k v t) ≡ cq_at j t
unfolding cq_at set_key
set_key_others k v j [] ne = ground arith
set_key_others k v j ((i, w) ∷ t) ne = ground (arith, set_key_others k v j t ne)

-- A dict: no number stands in the table twice.
pub data IsDict : List (ℕ × ℕ) → Type 0 where
  no_entry : IsDict []
  entry : (k v : ℕ) (t : List (ℕ × ℕ)) → cq_at k t ≡ err key_error → IsDict t → IsDict ((k, v) ∷ t)

set_key-IsDict : (k v : ℕ) (t : List (ℕ × ℕ)) → IsDict t → IsDict (set_key k v t)
unfolding cq_at set_key
set_key-IsDict k v [] d = entry k v [] refl no_entry
set_key-IsDict k v ((i, w) ∷ t) (entry _ _ _ new rest) = elim (ℕ_discrete i k) [
  | yes same ↦
      subst IsDict (ground arith)
        (entry k v t (subst (λ z. cq_at z t ≡ err key_error) same new) rest)
  | no other ↦
      subst IsDict (ground arith)
        (entry i w (set_key k v t) (set_key_others k v i t other ∙ new) (set_key-IsDict k v t rest))
]

-- A number that is found can be deleted, is then gone, and the others stay.
del_key_found :
    (k v : ℕ) (t : List (ℕ × ℕ))
    → cq_at k t ≡ ok v
    → IsDict t
    → (t' : List (ℕ × ℕ)) × (del_key k t ≡ ok t')
      × (cq_at k t' ≡ err key_error)
      × ((j : ℕ) → j ≢ k → cq_at j t' ≡ cq_at j t)
unfolding cq_at del_key
del_key_found k v [] e _ = cc
del_key_found k v ((i, w) ∷ t) e (entry _ _ _ new rest) = elim (ℕ_discrete i k) [
  | yes same ↦
      (t, ground arith, subst (λ z. cq_at z t ≡ err key_error) same new, λ j ne. ground arith)
  | no other ↦
      let (t', d, gone, keep) = del_key_found k v t (ground arith) rest in
      ((i, w) ∷ t', ground (arith, d), ground (arith, gone), λ j ne. ground (arith, keep j ne))
]

-- An attached CQ is found under its number, and all other numbers find what they found before.
pub attached :
    (cqn cq : ℕ) (eq : Eq)
    → (cq_at cqn (attach_cq cqn cq eq).cq_table ≡ ok cq)
      × ((j : ℕ) → j ≢ cqn → cq_at j (attach_cq cqn cq eq).cq_table ≡ cq_at j eq.cq_table)
unfolding attach_cq
attached cqn cq eq =
    (cq_at-set_key cqn cq eq.cq_table, λ j ne. set_key_others cqn cq j eq.cq_table ne)

-- On a table that is a dict, an attached CQ is found under its number, all other numbers find what
-- they found before, and it can be detached: `detach_cq` does not raise, the number is then gone (a
-- lookup raises the KeyError), and again all other numbers find the same.
pub attach_cq_lem :
    (cqn cq : ℕ) (eq : Eq)
    → IsDict eq.cq_table
    → (cq_at cqn (attach_cq cqn cq eq).cq_table ≡ ok cq)
      × ((j : ℕ) → j ≢ cqn → cq_at j (attach_cq cqn cq eq).cq_table ≡ cq_at j eq.cq_table)
      × ((eq' : Eq) × (detach_cq cqn (attach_cq cqn cq eq) ≡ ok eq')
          × (cq_at cqn eq'.cq_table ≡ err key_error)
          × ((j : ℕ) → j ≢ cqn → cq_at j eq'.cq_table ≡ cq_at j eq.cq_table))
unfolding attach_cq detach_cq
attach_cq_lem cqn cq eq dict =
    let here = cq_at-set_key cqn cq eq.cq_table in
    let (t, d, gone, keep) =
      del_key_found cqn cq (set_key cqn cq eq.cq_table) here
        (set_key-IsDict cqn cq eq.cq_table dict) in
    (
      here,
      λ j ne. set_key_others cqn cq j eq.cq_table ne,
      (
        record eq { cq_table = t },
        rw d refl,
        gone,
        λ j ne. keep j ne ∙ set_key_others cqn cq j eq.cq_table ne,
      ),
    )
