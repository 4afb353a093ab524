-- ===== src/Pifo/Accepts.antt =====
-- What the two tests accept of a PIFO, `TB.push_all_pop_all` and `TB.push_and_pop_concurrent` of
-- tb/PIFO/test_PIFO_SRAM_Top.py.
use schedra_nic.Prelude.{
  ℕ, ◌+◌, ◌-◌, ◌^◌, ◌≡◌, ◌↔◌, refl, ap, ◌∙◌, sym, List, [], ◌∷◌, ◌++◌, map, arith, length, ◌≢◌,
  ℕ_discrete, true, inl, inr, Bool-cases, ◌==◌, bit_and,
}
use schedra_nic.Device.{ok, err, value_error, Result, ◌>>=◌}
use schedra_nic.Resource.{sort}
use schedra_nic.Pifo.{
  Heap, check_and_remove_min, rev_rank, push_all, pop_all, push_all_pop_all, turns,
  push_and_pop_concurrent, insert, heappush, mtw,
}
use schedra_nic.Pifo.Sorted.{rank_of, drawn, ranks_sorted, words-push_all}

-- A call returns.
abbrev pub Accepts : Result Heap → Type 0
Accepts r = (heap : Heap) × (r ≡ ok heap)

parts : {a b : ℕ} {xs ys : List ℕ} → a ∷ xs ≡ b ∷ ys → (a ≡ b) × (xs ≡ ys)
parts h = (cc, cc)

same_rank : {a b : ℕ} → (a == b) ≡ true → a ≡ b
same_rank h = ground (arith, h)

-- As many responses as elements are accepted when their ranks are those of the structure, in order.
pop_all_accepts :
    (responses : List ℕ) (heap : Heap)
    → map rev_rank responses ≡ map rank_of heap
    → pop_all responses heap ≡ ok []
unfolding pop_all check_and_remove_min
pop_all_accepts [] [] e = refl
pop_all_accepts [] (x ∷ heap) e = absurd (cc)
pop_all_accepts (resp ∷ responses) [] e = absurd (cc)
pop_all_accepts (resp ∷ responses) (x ∷ heap) e =
    let (same, rest) = parts e in ground (arith, same, pop_all_accepts responses heap rest)

pop_all_accepted :
    (responses : List ℕ) (heap : Heap)
    → length responses ≡ length heap
    → Accepts (pop_all responses heap)
    → map rev_rank responses ≡ map rank_of heap
unfolding pop_all check_and_remove_min
pop_all_accepted [] [] n a = refl
pop_all_accepted [] (x ∷ heap) n a = absurd (omega (arith, n))
pop_all_accepted (resp ∷ responses) [] n a = absurd (omega (arith, n))
pop_all_accepted (resp ∷ responses) (x ∷ heap) n (left, e) =
    elim (Bool-cases (rev_rank resp == x.0)) [
      | inl same ↦
          let rest = pop_all_accepted responses heap (omega (arith, n)) (left, rw same at e) in
          rw (rest, same_rank same) refl
      | inr other ↦ absurd (ground (arith, other, e))
    ]

length-heappush : (heap : Heap) (x : ℕ × ℕ) → length (heappush heap x) ≡ length heap + 1
unfolding heappush
length-heappush [] x = omega arith
length-heappush (y ∷ ys) x = ground (arith, length-heappush ys x)

length-push_all :
    (i : ℕ) (draws : List ℕ) (heap : Heap)
    → length (push_all i draws heap).1 ≡ length heap + length draws
unfolding push_all insert
length-push_all i [] heap = omega arith
length-push_all i (draw ∷ draws) heap =
    let x : ℕ × ℕ = (drawn draw, bit_and (i + 1) (2 ^ mtw - 1)) in
    omega (arith, length-heappush heap x, length-push_all (i + 1) draws (heappush heap x))

-- With as many responses as pushes, the test that pushes all and pops all passes exactly if the
-- ranks of the responses are the ranks of the words that were pushed, in ascending order; the metas
-- play no part.
pub push_all_pop_all_iff :
    (draws responses : List ℕ)
    → length responses ≡ length draws
    → Accepts (push_all_pop_all draws responses)
      ↔ (map rev_rank responses ≡ sort (map rev_rank (push_all 0 draws []).0))
unfolding push_all_pop_all
push_all_pop_all_iff draws responses n =
    let same = ranks_sorted draws in
    let words = ap sort (words-push_all 0 draws []) in
    (
      λ a.
          pop_all_accepted responses (push_all 0 draws []).1
            (omega (arith, n, length-push_all 0 draws [])) a
          ∙ same
          ∙ sym words,
      λ e. ([], pop_all_accepts responses (push_all 0 draws []).1 (e ∙ words ∙ sym same)),
    )

-- One element in the structure: one response must have its rank.
pop_one : (resp r m : ℕ) → rev_rank resp ≡ r → pop_all (resp ∷ []) ((r, m) ∷ []) ≡ ok []
unfolding pop_all check_and_remove_min
pop_one resp r m e = ground (arith, e)

pop_other : (resp r m : ℕ) → rev_rank resp ≢ r → pop_all (resp ∷ []) ((r, m) ∷ []) ≡ err value_error
unfolding pop_all check_and_remove_min
pop_other resp r m ne = ground (arith, ne)

-- The turns and the last pop, from a structure of one element on.
abbrev from_one : (r m : ℕ) → List (ℕ × ℕ) → ℕ → Result Heap
from_one r m rounds resp = turns rounds ((r, m) ∷ []) >>= λ heap. pop_all (resp ∷ []) heap

abbrev popped : List (ℕ × ℕ) → ℕ → List ℕ
popped rounds resp = map (λ (t : ℕ × ℕ). t.0) rounds ++ resp ∷ []

from_one_accepts :
    (r m : ℕ) (rounds : List (ℕ × ℕ)) (resp : ℕ)
    → map rev_rank (popped rounds resp) ≡ r ∷ map drawn (map (λ (t : ℕ × ℕ). t.1) rounds)
    → from_one r m rounds resp ≡ ok []
unfolding turns push_all insert heappush
from_one_accepts r m [] resp e = pop_one resp r m (parts e).0
from_one_accepts r m ((resp', draw) ∷ rounds) resp e =
    rw (pop_one resp' r m (parts e).0)
      (from_one_accepts (drawn draw) (bit_and 1 (2 ^ mtw - 1)) rounds resp (parts e).1)

from_one_accepted :
    (r m : ℕ) (rounds : List (ℕ × ℕ)) (resp : ℕ)
    → Accepts (from_one r m rounds resp)
    → map rev_rank (popped rounds resp) ≡ r ∷ map drawn (map (λ (t : ℕ × ℕ). t.1) rounds)
unfolding turns push_all insert heappush
from_one_accepted r m [] resp (left, e) = elim (ℕ_discrete (rev_rank resp) r) [
  | yes same ↦ rw same refl
  | no other ↦ absurd (cc (e, pop_other resp r m other))
]
from_one_accepted r m ((resp', draw) ∷ rounds) resp (left, e) =
    elim (ℕ_discrete (rev_rank resp') r) [
      | yes same ↦
          let rest =
            from_one_accepted (drawn draw) (bit_and 1 (2 ^ mtw - 1)) rounds resp
              (left, rw (pop_one resp' r m same) at e) in
          rw (same, rest) refl
      | no other ↦ absurd (cc (rw (pop_other resp' r m other) at e))
    ]

-- The test of concurrent pushes and pops passes exactly if each response has the rank of the
-- element that was pushed last before it: the structure never has more than one element, and any
-- queue that holds one passes.
pub push_and_pop_concurrent_iff :
    (draw : ℕ) (rounds : List (ℕ × ℕ)) (resp : ℕ)
    → Accepts (push_and_pop_concurrent draw rounds resp) ↔ (
        map rev_rank (map (λ (t : ℕ × ℕ). t.0) rounds ++ resp ∷ [])
        ≡ map drawn (draw ∷ map (λ (t : ℕ × ℕ). t.1) rounds))
unfolding push_and_pop_concurrent push_all insert heappush
push_and_pop_concurrent_iff draw rounds resp = (
  λ a. from_one_accepted (drawn draw) (bit_and 1 (2 ^ mtw - 1)) rounds resp a,
  λ e. ([], from_one_accepts (drawn draw) (bit_and 1 (2 ^ mtw - 1)) rounds resp e),
)
