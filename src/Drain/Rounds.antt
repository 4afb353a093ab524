-- ===== src/Drain/Rounds.antt =====
-- What the loop has done when it stops, for a test that the body does not change.
use native.Mathlib.Nat.{add-zero}
use schedra_nic.Prelude.{
  ℕ, zero, suc, ◌+◌, ◌≤◌, ◌<◌, ◌≡◌, ap, ◌∙◌, sym, Bool, true, false, arith, Bool-cases, inl, inr,
  ℕ_discrete,
}
use schedra_nic.Device.{Result, ok}
use schedra_nic.Drain.{drain}

-- The loop returned at the pointer `c` in the state `t`: every entry before it was new, and the
-- entry there is not.
pub record Drained {ℓ κ} {S : Type ℓ} (P : ℕ → S → Type κ) (empty : ℕ → Bool) (from c : ℕ) (t : S)
    : Type κ where
  pub forward : from ≤ c
  pub at_end : empty c ≡ true
  pub consumed : (i : ℕ) → from ≤ i → i < c → empty i ≡ false
  pub holds_at_end : P c t

module _ {ℓ κ} {S : Type ℓ} (P : ℕ → S → Type κ) (empty : ℕ → Bool) (body : ℕ → S → Result S)
    (keep : (c : ℕ) (s : S)
      → P c s
      → empty c ≡ false
      → (s' : S) × (body c s ≡ ok s') × P (c + 1) s') where
  stops :
      (fuel : ℕ) {c : ℕ} {s : S} → empty c ≡ true → drain fuel (λ i _. empty i) body c s ≡ ok (c, s)
  unfolding drain
  stops zero e = rw e
  stops (suc fuel) e = rw e

  goes_on :
      (fuel c : ℕ) (s : S) {s' : S}
      → empty c ≡ false
      → body c s ≡ ok s'
      → drain (suc fuel) (λ i _. empty i) body c s ≡ drain fuel (λ i _. empty i) body (c + 1) s'
  unfolding drain
  goes_on fuel c s e b = rw (e, b)

  -- The entry in hand is consumed before those that a shorter run consumes.
  one_more :
      {c c' : ℕ} {t : S} → empty c ≡ false → Drained P empty (c + 1) c' t → Drained P empty c c' t
  one_more {c} new d = record {
    forward = omega (arith, d.forward);
    at_end = d.at_end;
    consumed = λ i l u. elim (ℕ_discrete i c) [
      | yes same ↦ ap empty same ∙ new
      | no other ↦ d.consumed i (omega arith) u
    ];
    holds_at_end = d.holds_at_end;
  }

  at_once : {c : ℕ} {s : S} → empty c ≡ true → P c s → Drained P empty c c s
  at_once now p = record {
    forward = omega arith;
    at_end = now;
    consumed = λ i l u. absurd (omega arith);
    holds_at_end = p;
  }

  -- If an entry at most `fuel` ahead has nothing new, the loop returns, and keeps its invariant.
  pub drain_lem :
      (fuel n c : ℕ) (s : S)
      → empty (c + n) ≡ true
      → n ≤ fuel
      → P c s
      → (c' : ℕ) × (t : S) × (drain fuel (λ i _. empty i) body c s ≡ ok (c', t))
        × (c' ≤ c + n)
        × Drained P empty c c' t
  drain_lem fuel zero c s e le p =
      let now : empty c ≡ true = ap empty (sym (add-zero c)) ∙ e in
      (c, s, stops fuel now, omega arith, at_once now p)
  drain_lem zero (suc n) c s e le p = absurd (omega arith)
  drain_lem (suc fuel) (suc n) c s e le p = elim (Bool-cases (empty c)) [
    | inl now ↦ (c, s, stops (suc fuel) now, omega arith, at_once now p)
    | inr new ↦
        let (s', b, p') = keep c s p new in
        let shift : c + suc n ≡ c + 1 + n = omega arith in
        let (c', t, d, bound, r) =
          drain_lem fuel n (c + 1) s' (ap empty (sym shift) ∙ e) (omega arith) p' in
        (c', t, goes_on fuel c s new b ∙ d, omega (arith, bound), one_more new r)
  ]
