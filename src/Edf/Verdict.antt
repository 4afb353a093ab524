-- ===== src/Edf/Verdict.antt =====
-- The verdict of the EDF test: which losses it finds, and what it says of the order.
use schedra_nic.Prelude.{
  ℕ, zero, suc, ◌+◌, ◌*◌, ◌≤◌, ◌<◌, ◌≡◌, ◌↔◌, ◌⊎◌, refl, ap, ◌∙◌, sym, true, inl, inr, Bool-cases,
  ◌&&◌, List, Bool, ℕ_discrete, subst, same-some, [], ◌∷◌, some, none, Option, get_elem?, arith,
  range_from, take, length, dec_lt, ltb, ◌==◌, min,
}
use schedra_nic.Device.{Result, ok, err, assertion_error, timeout_error}
use schedra_nic.Edf.{
  Config, was_received, count_at, none_missing, all_ok, metric_at, violations, test_edf,
  receive_all, total_of,
}
use schedra_nic.Edf.Decode.{
  BuiltAll, IsSent, receive_all-BuiltAll, receive_all_timeout, take-IsSent,
}

-- Nothing of a queue is missing exactly if all its sequence numbers came.
none_missing_iff :
    (qid k n : ℕ) (recv : List (ℕ × ℕ))
    → (none_missing qid (range_from k n) recv ≡ true)
      ↔ ((seq : ℕ) → k ≤ seq → seq < k + n → was_received qid seq recv ≡ true)
unfolding none_missing
none_missing_iff qid k zero recv = (λ _ seq l u. absurd (omega arith), λ _. refl)
none_missing_iff qid k (suc n) recv =
    let (to, from) = none_missing_iff qid (k + 1) n recv in
    (
      λ h seq l u. elim (ℕ_discrete k seq) [
        | yes same ↦ rw (← same) (ground (arith, h))
        | no other ↦ to (ground (arith, h)) seq (omega arith) (omega arith)
      ],
      λ all. ground (
        arith,
        all k (omega arith) (omega arith),
        from (λ seq l u. all seq (omega arith) (omega arith)),
      ),
    )

-- Every packet of every queue of the configurations came.
abbrev pub AllArrived : List Config → List Config → List (ℕ × ℕ) → Type 0
AllArrived configs rest recv =
    (p : ℕ) (cfg : Config)
    → get_elem? rest p ≡ some cfg
    → (seq : ℕ) → seq < count_at cfg.qid configs cfg.count
    → was_received cfg.qid seq recv ≡ true

both : {a b : Bool} → a && b ≡ true → (a ≡ true) × (b ≡ true)
both h = ground (arith, h)

first_and_rest :
    (configs : List Config) (c : Config) (cs : List Config) (recv : List (ℕ × ℕ))
    → ((seq : ℕ) → seq < count_at c.qid configs c.count → was_received c.qid seq recv ≡ true)
    → AllArrived configs cs recv
    → AllArrived configs (c ∷ cs) recv
first_and_rest configs c cs recv first rest zero cfg h seq l =
    subst
      (λ (z : Config).
        (seq : ℕ) → seq < count_at z.qid configs z.count → was_received z.qid seq recv ≡ true)
      (same-some h) first seq l
first_and_rest configs c cs recv first rest (suc p) cfg h seq l = rest p cfg h seq l

all_ok_iff :
    (configs rest : List Config) (recv : List (ℕ × ℕ))
    → (all_ok configs rest recv ≡ true) ↔ AllArrived configs rest recv
unfolding all_ok
all_ok_iff configs [] recv = (λ _ p cfg h. absurd (cc), λ _. refl)
all_ok_iff configs (c ∷ cs) recv =
    let (to, from) = all_ok_iff configs cs recv in
    let (to_one, from_one) = none_missing_iff c.qid 0 (count_at c.qid configs c.count) recv in
    (
      λ h.
          let (one, others) = both h in
          first_and_rest configs c cs recv (λ seq l. to_one one seq (omega arith) (omega arith))
            (to others),
      λ all.
          let one = from_one (λ seq _ u. all 0 c refl seq (omega arith)) in
          let others = from (λ p cfg h seq l. all (suc p) cfg h seq l) in rw (one, others) refl,
    )

-- The rank of a packet of the test is known.
metric_after :
    (configs : List Config) (q s r : ℕ) → (rank : ℕ) × (metric_at configs q s (some r) ≡ ok rank)
unfolding metric_at
metric_after [] q s r = (r, refl)
metric_after (c ∷ cs) q s r = elim (Bool-cases (c.qid == q && ltb s c.count)) [
  | inl here ↦
      let (rank, e) = metric_after cs q s (min (c.base_deadline + s * 11) 0x1FFF) in
      (rank, rw here e)
  | inr other ↦ let (rank, e) = metric_after cs q s r in (rank, rw other e)
]

this_one :
    (c : Config) {config : Config} (q s : ℕ)
    → c ≡ config
    → config.qid ≡ q
    → s < config.count
    → (c.qid == q && ltb s c.count) ≡ true
this_one c q s same e l =
    ground (arith, ap (λ (z : Config). z.qid) same, ap (λ (z : Config). z.count) same, e, l)

metric_total :
    (configs : List Config) (place : ℕ) {config : Config} (q s : ℕ)
    → get_elem? configs place ≡ some config
    → config.qid ≡ q
    → s < config.count
    → (rank : ℕ) × (metric_at configs q s none ≡ ok rank)
unfolding metric_at
metric_total [] place q s at e l = absurd (cc)
metric_total (c ∷ cs) zero q s at e l =
    let here : (c.qid == q && ltb s c.count) ≡ true = this_one c q s (same-some at) e l in
    let (rank, found) = metric_after cs q s (min (c.base_deadline + s * 11) 0x1FFF) in
    (rank, rw here found)
metric_total (c ∷ cs) (suc place) q s at e l = elim (Bool-cases (c.qid == q && ltb s c.count)) [
  | inl here ↦
      let (rank, found) = metric_after cs q s (min (c.base_deadline + s * 11) 0x1FFF) in
      (rank, rw here found)
  | inr other ↦ let (rank, found) = metric_total cs place q s at e l in (rank, rw other found)
]

-- A rank is not below the one before it.
abbrev pub NotBelow : Option ℕ → ℕ → Type 0
NotBelow none rank = Unit
NotBelow (some prev) rank = prev ≤ rank

-- The ranks of the packets never fall.
pub data InOrder (configs : List Config) : Option ℕ → List (ℕ × ℕ) → Type 0 where
  in_order_none : (prev : Option ℕ) → InOrder configs prev []
  in_order_next :
      (prev : Option ℕ) (qid seq rank : ℕ) (recv : List (ℕ × ℕ))
      → metric_at configs qid seq none ≡ ok rank
      → NotBelow prev rank
      → InOrder configs (some rank) recv
      → InOrder configs prev ((qid, seq) ∷ recv)

-- What follows a packet in an order, once its rank is known.
later :
    (configs : List Config) (prev : Option ℕ) (q s rank : ℕ) (recv : List (ℕ × ℕ))
    → metric_at configs q s none ≡ ok rank
    → InOrder configs prev ((q, s) ∷ recv)
    → NotBelow prev rank × InOrder configs (some rank) recv
later configs prev q s rank recv e (in_order_next _ _ _ r _ f above rest) =
    let same : r ≡ rank = same-ok (sym f ∙ e) in
    (subst (NotBelow prev) same above, subst (λ z. InOrder configs (some z) recv) same rest)
  where
    same-ok : {x y : ℕ} → ok x ≡ ok y → x ≡ y
    same-ok h = cc

-- The loop over the packets raises nothing, and finds nothing exactly if the ranks never fall.
violations_lem :
    (configs : List Config) (pos : ℕ) (prev : Option ℕ) (recv : List (ℕ × ℕ))
    → ((k : ℕ) (x : ℕ × ℕ) → get_elem? recv k ≡ some x → IsSent configs x)
    → (warned : List (ℕ × ℕ × ℕ × ℕ × ℕ)) × (violations configs pos prev recv ≡ ok warned)
      × ((warned ≡ []) ↔ InOrder configs prev recv)
unfolding violations
violations_lem configs pos prev [] sent = ([], refl, (λ _. in_order_none prev, λ _. refl))
violations_lem configs pos none ((q, s) ∷ recv) sent =
    let x = sent 0 (q, s) refl in
    let (rank, e) = metric_total configs x.place q s x.at x.qid x.below in
    let (rest, f, (to, from)) =
      violations_lem configs (pos + 1) (some rank) recv (λ k y h. sent (suc k) y h) in
    (
      rest,
      rw (e, f) refl,
      (
        λ h. in_order_next none q s rank recv e tt (to h),
        λ o. from (later configs none q s rank recv e o).1,
      ),
    )
violations_lem configs pos (some prev) ((q, s) ∷ recv) sent =
    let x = sent 0 (q, s) refl in
    let (rank, e) = metric_total configs x.place q s x.at x.qid x.below in
    let (rest, f, (to, from)) =
      violations_lem configs (pos + 1) (some rank) recv (λ k y h. sent (suc k) y h) in
    elim (Bool-cases (ltb rank prev)) [
      | inl falls ↦ (
        (pos, prev, rank, q, s) ∷ rest,
        rw (e, f, falls) refl,
        (
          λ h. absurd (cc),
          λ o.
              let (above, _) = later configs (some prev) q s rank recv e o in
              absurd (ground (arith, falls, above)),
        ),
      )
      | inr keeps ↦ (
        rest,
        rw (e, f, keeps) refl,
        (
          λ h. in_order_next (some prev) q s rank recv e (ground (arith, keeps)) (to h),
          λ o. from (later configs (some prev) q s rank recv e o).1,
        ),
      )
    ]

-- The verdict on packets that were read: it passes if all arrived, and else its assertion fails.
abbrev pub Judged : List Config → List (ℕ × ℕ) → Result (List (ℕ × ℕ × ℕ × ℕ × ℕ)) → Type 0
Judged configs recv verdict =
    (AllArrived configs configs recv
      × (warned : List (ℕ × ℕ × ℕ × ℕ × ℕ)) × (verdict ≡ ok warned)
      × ((warned ≡ []) ↔ InOrder configs none recv))
    ⊎ ((¬ AllArrived configs configs recv) × (verdict ≡ err assertion_error))

judged :
    (configs : List Config) (order : List (ℕ × ℕ)) (pkts : List (List ℕ))
    → ((k : ℕ) (x : ℕ × ℕ)
        → get_elem? (take (total_of configs) order) k ≡ some x
        → IsSent configs x)
    → receive_all configs (total_of configs) pkts ≡ ok (take (total_of configs) order)
    → Judged configs (take (total_of configs) order) (test_edf configs pkts)
unfolding test_edf
judged configs order pkts sent back =
    let recv : List (ℕ × ℕ) = take (total_of configs) order in
    let (warned, e, order_iff) = violations_lem configs 0 none recv sent in
    let (to, from) = all_ok_iff configs configs recv in
    elim (Bool-cases (all_ok configs configs recv)) [
      | inl arrived ↦ inl (to arrived, warned, rw (back, e, arrived) refl, order_iff)
      | inr missing ↦
          inr ((λ all. absurd (ground (arith, missing, from all))), rw (back, e, missing) refl)
    ]

-- On the packets of the test, lost, repeated and reordered in any way: if fewer come than were sent,
-- the test fails by the timeout; otherwise it reads as many as were sent, and if one of a queue's
-- sequence numbers is not among those, it fails by its assertion; otherwise it passes, whatever the
-- order, and warns of nothing exactly if none of these packets' ranks is below the rank of the packet
-- before it.
pub test_edf_lem :
    (configs : List Config) (size : ℕ) {order : List (ℕ × ℕ)} {pkts : List (List ℕ)}
    → 5 ≤ size
    → BuiltAll size order pkts
    → ((k : ℕ) (x : ℕ × ℕ) → get_elem? order k ≡ some x → IsSent configs x)
    → ((length order < total_of configs) × (test_edf configs pkts ≡ err timeout_error))
      ⊎ ((total_of configs ≤ length order)
          × Judged configs (take (total_of configs) order) (test_edf configs pkts))
unfolding test_edf
test_edf_lem configs size {order} {pkts} long built sent =
    elim (dec_lt (length order) (total_of configs)) [
      | yes few ↦
          inl
            (few, rw (receive_all_timeout configs size long (total_of configs) built sent few) refl)
      | no enough ↦
          let many : total_of configs ≤ length order = omega arith in
          inr (
            many,
            judged configs order pkts (take-IsSent configs (total_of configs) order sent)
                (receive_all-BuiltAll configs size long (total_of configs) built sent many),
          )
    ]
