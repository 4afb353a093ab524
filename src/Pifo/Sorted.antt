-- ===== src/Pifo/Sorted.antt =====
-- The reference structure holds its ranks in ascending order.
use schedra_nic.Prelude.{
  ℕ, ◌+◌, ◌-◌, ◌*◌, ◌/◌, ◌%◌, ◌^◌, ◌≤◌, ◌<◌, ◌≡◌, refl, ap, ◌∙◌, List, [], ◌∷◌, All, arith, map,
  leb, leb→le, true, false, inl, inr, Bool-cases, bit_and, bit_or, and_mask, or_fields, two_pow_pos,
}
use native.Mathlib.Nat.{mod-lt}
use schedra_nic.Resource.{insert_sorted, sort}
use schedra_nic.Pifo.{Heap, heappush, insert, push_word, rev_rank, push_all, ptw, mtw, tuple_le}

abbrev pub rank_of : ℕ × ℕ → ℕ
rank_of x = x.0

-- The ranks are ascending, equal ones included.
abbrev pub Ascending : Heap → Type 0
Ascending [] = Unit
Ascending (x ∷ xs) = All (λ (y : ℕ × ℕ). x.0 ≤ y.0) xs × Ascending xs

weaken :
    (a b : ℕ) (xs : Heap)
    → a ≤ b
    → All (λ (y : ℕ × ℕ). b ≤ y.0) xs
    → All (λ (y : ℕ × ℕ). a ≤ y.0) xs
weaken a b [] l v = tt
weaken a b (x ∷ xs) l v = (omega (arith, v.0), weaken a b xs l v.1)

All-heappush :
    (a : ℕ) (xs : Heap) (x : ℕ × ℕ)
    → a ≤ x.0
    → All (λ (y : ℕ × ℕ). a ≤ y.0) xs
    → All (λ (y : ℕ × ℕ). a ≤ y.0) (heappush xs x)
unfolding heappush
All-heappush a [] x l v = (l, tt)
All-heappush a (y ∷ ys) x l v = elim (Bool-cases (tuple_le x y)) [
  | inl less ↦ rw less (l, v)
  | inr more ↦ rw more (v.0, All-heappush a ys x l v.1)
]

less-rank : (x y : ℕ × ℕ) → tuple_le x y ≡ true → x.0 ≤ y.0
less-rank x y h = ground (arith, h)

more-rank : (x y : ℕ × ℕ) → tuple_le x y ≡ false → y.0 ≤ x.0
more-rank x y h = ground (arith, h)

heappush-Ascending : (xs : Heap) (x : ℕ × ℕ) → Ascending xs → Ascending (heappush xs x)
unfolding heappush
heappush-Ascending [] x v = (tt, tt)
heappush-Ascending (y ∷ ys) x v = elim (Bool-cases (tuple_le x y)) [
  | inl less ↦ rw less ((less-rank x y less, weaken x.0 y.0 ys (less-rank x y less) v.0), v)
  | inr more ↦ rw more (All-heappush y.0 ys x (more-rank x y more) v.0, heappush-Ascending ys x v.1)
]

-- A least rank is inserted in front.
insert_sorted-least :
    (r : ℕ) (ys : Heap)
    → All (λ (y : ℕ × ℕ). r ≤ y.0) ys
    → insert_sorted r (map rank_of ys) ≡ r ∷ map rank_of ys
unfolding insert_sorted
insert_sorted-least r [] v = refl
insert_sorted-least r (y ∷ ys) v = ground (arith, v.0)

-- The ranks after a push.
ranks-heappush :
    (xs : Heap) (x : ℕ × ℕ)
    → Ascending xs
    → map rank_of (heappush xs x) ≡ insert_sorted x.0 (map rank_of xs)
unfolding heappush insert_sorted
ranks-heappush [] x v = refl
ranks-heappush (y ∷ ys) x v = elim (Bool-cases (tuple_le x y)) [
  | inl less ↦ ground (arith, less, less-rank x y less)
  | inr more ↦
      let later = ranks-heappush ys x v.1 in
      elim (Bool-cases (leb x.0 y.0)) [
        | inl le ↦
            let same : x.0 ≡ y.0 = omega (arith, leb→le x.0 y.0 le, more-rank x y more) in
            let first = insert_sorted-least x.0 ys (weaken x.0 y.0 ys (omega (arith, same)) v.0) in
            rw (more, later, first, le, same) refl
        | inr gt ↦ rw (more, later, gt) refl
      ]
]

-- Ranks inserted one after the other, and sorting.
abbrev pub insert_all : List ℕ → List ℕ → List ℕ
insert_all [] l = l
insert_all (r ∷ rs) l = insert_all rs (insert_sorted r l)

insert_sorted-swap :
    (r t : ℕ) (l : List ℕ)
    → insert_sorted r (insert_sorted t l) ≡ insert_sorted t (insert_sorted r l)
unfolding insert_sorted
insert_sorted-swap r t [] = ground arith
insert_sorted-swap r t (x ∷ xs) = ground (arith, insert_sorted-swap r t xs)

insert_all-insert_sorted :
    (rs l : List ℕ) (r : ℕ) → insert_all rs (insert_sorted r l) ≡ insert_sorted r (insert_all rs l)
insert_all-insert_sorted [] l r = refl
insert_all-insert_sorted (t ∷ rs) l r =
    ap (insert_all rs) (insert_sorted-swap t r l)
    ∙ insert_all-insert_sorted rs (insert_sorted t l) r

insert_all-sort : (rs : List ℕ) → insert_all rs [] ≡ sort rs
unfolding sort
insert_all-sort [] = refl
insert_all-sort (r ∷ rs) =
    insert_all-insert_sorted rs [] r ∙ ap (insert_sorted r) (insert_all-sort rs)

-- The rank of a draw.
abbrev pub drawn : ℕ → ℕ
drawn draw = bit_and draw (2 ^ ptw - 1)

ranks-push_all :
    (i : ℕ) (draws : List ℕ) (heap : Heap)
    → Ascending heap
    → map rank_of (push_all i draws heap).1 ≡ insert_all (map drawn draws) (map rank_of heap)
unfolding push_all insert
ranks-push_all i [] heap v = refl
ranks-push_all i (draw ∷ draws) heap v =
    let x : ℕ × ℕ = (drawn draw, bit_and (i + 1) (2 ^ mtw - 1)) in
    ranks-push_all (i + 1) draws (heappush heap x) (heappush-Ascending heap x v)
    ∙ ap (insert_all (map drawn draws)) (ranks-heappush heap x v)

-- After the pushes, the ranks of the structure are those of the draws, sorted.
pub ranks_sorted : (draws : List ℕ) → map rank_of (push_all 0 draws []).1 ≡ sort (map drawn draws)
ranks_sorted draws = ranks-push_all 0 draws [] tt ∙ insert_all-sort (map drawn draws)

-- The rank of a word that is pushed.
pub rev_rank-push_word :
    (draw i : ℕ) → rev_rank (push_word (drawn draw) (bit_and i (2 ^ mtw - 1))) ≡ drawn draw
unfolding rev_rank push_word
rev_rank-push_word draw i =
    let r : ℕ = drawn draw in
    let m : ℕ = bit_and i (2 ^ mtw - 1) in
    let small : m < 2 ^ 24 = omega (arith, and_mask 24 i, mod-lt i (two_pow_pos 24)) in
    let fits : r < 2 ^ 16 = omega (arith, and_mask 16 draw, mod-lt draw (two_pow_pos 16)) in
    let fields : bit_or (r * 2 ^ 24) m ≡ r * 2 ^ 24 + m = or_fields 24 r m small in
    ap (λ w. bit_and (w / 2 ^ 24) (2 ^ 16 - 1)) fields
    ∙ and_mask 16 ((r * 2 ^ 24 + m) / 2 ^ 24)
    ∙ top r m small fits
  where
    top : (r m : ℕ) → m < 2 ^ 24 → r < 2 ^ 16 → (r * 2 ^ 24 + m) / 2 ^ 24 % 2 ^ 16 ≡ r
    top r m small fits = omega arith

pub words-push_all :
    (i : ℕ) (draws : List ℕ) (heap : Heap)
    → map rev_rank (push_all i draws heap).0 ≡ map drawn draws
unfolding push_all insert
words-push_all i [] heap = refl
words-push_all i (draw ∷ draws) heap =
    rw
      (
        rev_rank-push_word draw (i + 1),
        words-push_all (i + 1) draws (heappush heap (drawn draw, bit_and (i + 1) (2 ^ mtw - 1))),
      )
      refl
