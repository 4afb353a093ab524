-- ===== src/Cq/Freed.antt =====
-- What the loops of `Txq.process_tx_cq` and `Rxq.process_rx_cq` do to the slots: those that the
-- completions name are emptied, and no other.
use schedra_nic.Prelude.{
  ℕ, ◌+◌, ◌≤◌, ◌<◌, ◌≡◌, ◌≢◌, refl, ap, ◌∙◌, none, some, set, get_elem?, arith, ℕ_discrete,
  get_elem?-set_ne, get_elem?-set_here,
}
use schedra_nic.Ring.{Slots}
use schedra_nic.Ring.Slots.{stays_vacant}
use schedra_nic.Cq.{Cq, completed_index}

module _ (q : Cq) (size_mask from : ℕ) (before : Slots) where
  -- The slots after the completions from one pointer up to another, which found them as `before`.
  pub record Freed (c : ℕ) (info : Slots) : Type 0 where
    pub forward : from ≤ c
    pub emptied :
        (d : ℕ) → from ≤ d → d < c → get_elem? info (completed_index q size_mask d) ≡ some none
    pub kept :
        (j : ℕ)
        → ((d : ℕ) → from ≤ d → d < c → completed_index q size_mask d ≢ j)
        → get_elem? info j ≡ get_elem? before j

  pub nothing-Freed : Freed from before
  nothing-Freed = record {
    forward = omega arith;
    emptied = λ d l u. absurd (omega arith);
    kept = λ j other. refl;
  }

  pub one_more-Freed :
      (c : ℕ) (info : Slots) {pkt : ℕ}
      → get_elem? info (completed_index q size_mask c) ≡ some (some pkt)
      → Freed c info
      → Freed (c + 1) (set info (completed_index q size_mask c) none)
  one_more-Freed c info here f = record {
    forward = omega (arith, f.forward);
    emptied = λ d l u. elim (ℕ_discrete d c) [
      | yes e ↦
          ap
            (λ z.
              get_elem? (set info (completed_index q size_mask c) none)
                (completed_index q size_mask z))
            e
          ∙ get_elem?-set_here info (completed_index q size_mask c) none here
      | no ne ↦
          stays_vacant info (completed_index q size_mask c) (completed_index q size_mask d)
            (f.emptied d l (omega arith))
    ];
    kept = λ j other.
        get_elem?-set_ne info none (other c f.forward (omega arith))
        ∙ f.kept j (λ d l u. other d l (omega arith));
  }
