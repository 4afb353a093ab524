-- ===== src/RegBlocks/Termination.antt =====
-- The walk of `enumerate_reg_blocks` ends: it visits no offset twice, so it takes no more rounds
-- than the register space has aligned offsets, and one.
use schedra_nic.Prelude.{
  ℕ, zero, suc, ◌+◌, ◌*◌, ◌≡◌, ◌<◌, ◌≤◌, refl, true, false, ◌||◌, List, [], ◌∷◌, ◌++◌, ◌==◌,
  if◌then◌else◌, arith, bit_and, sym, ap, subst, dec_lt, ◌⊎◌, inl, inr, ◌∙◌, ◌/◌, and_mask,
}
use schedra_nic.Device.{Result, ok, err, assertion_error}
use schedra_nic.RegBlocks.{RegBlock, visited, block_at, next_ptr, enumerate_reg_blocks}
use schedra_nic.RegBlocks.Chain.{stops, fails, goes_on, enumerate-Round}

-- The number of the first `n` aligned offsets that the list has no block at.
abbrev unseen : ℕ → List RegBlock → ℕ
unseen zero bs = 0
unseen (suc n) bs = if visited (n * 4) bs then unseen n bs else suc (unseen n bs)

visited-append :
    (o : ℕ) (bs : List RegBlock) (b : RegBlock)
    → visited o (bs ++ b ∷ []) ≡ (b.offset == o || visited o bs)
visited-append o [] b = refl
visited-append o (c ∷ cs) b = ground (arith, visited-append o cs b)

unseen-append_le :
    (n : ℕ) (bs : List RegBlock) (b : RegBlock) → unseen n (bs ++ b ∷ []) ≤ unseen n bs
unseen-append_le zero bs b = omega arith
unseen-append_le (suc n) bs b = ground (arith, visited-append (n * 4) bs b, unseen-append_le n bs b)

-- A block at an aligned offset that was not seen is one fewer.
unseen-append_lt :
    (n : ℕ) (bs : List RegBlock) (b : RegBlock) (k : ℕ)
    → b.offset ≡ k * 4
    → k < n
    → visited b.offset bs ≡ false
    → unseen n (bs ++ b ∷ []) < unseen n bs
unseen-append_lt zero bs b k e h v = elim h [ ]
unseen-append_lt (suc n) bs b k e h v = elim (dec_lt k n) [
  | yes p ↦ ground (arith, visited-append (n * 4) bs b, unseen-append_lt n bs b k e p v)
  | no p ↦
      let same : k ≡ n = omega arith in
      let here : b.offset ≡ n * 4 = e ∙ ap (λ t. t * 4) same in
      let new : visited (n * 4) bs ≡ false = rw here at v in
      let seen : visited (n * 4) (bs ++ b ∷ []) ≡ true =
        ground (arith, visited-append (n * 4) bs b) in
      rw (new, seen) (omega (arith, unseen-append_le n bs b))
]

unseen-le : (n : ℕ) (bs : List RegBlock) → unseen n bs ≤ n
unseen-le zero bs = omega arith
unseen-le (suc n) bs = ground (arith, unseen-le n bs)

aligned : (o : ℕ) → bit_and o 0x3 ≡ 0 → o ≡ o / 4 * 4
aligned o h = omega (arith, and_mask 2 o)

-- Returned a list of blocks, or stopped at an assertion.
abbrev Ended : Result (List RegBlock) → Type 0
Ended r = ((bs : List RegBlock) × (r ≡ ok bs)) ⊎ (r ≡ err assertion_error)

walk_ends :
    (read : ℕ → ℕ) (n fuel offset : ℕ) (before : List RegBlock)
    → ((o : ℕ) → next_ptr read o < n * 4)
    → unseen n (before ++ block_at read offset ∷ []) < fuel
    → Ended (enumerate_reg_blocks read fuel offset before)
walk_ends read n zero offset before bound h = elim h [ ]
walk_ends read n (suc fuel) offset before bound h = elim (enumerate-Round read before offset fuel) [
  | stops z p ↦ inl (before ++ block_at read offset ∷ [], p)
  | fails p ↦ inr p
  | goes_on nz al nv p ↦
      let next = next_ptr read offset in
      let fewer =
        unseen-append_lt n (before ++ block_at read offset ∷ []) (block_at read next) (next / 4)
          (unfold block_at in aligned next al) (omega (arith, bound offset))
          (unfold block_at in nv) in
      subst Ended (sym p) (
        walk_ends read n fuel next (before ++ block_at read offset ∷ []) bound
          (omega (arith, fewer)))
]

-- If every next pointer of the register file lies below `4 * n`, the walk from any offset returns a
-- list of blocks or stops at an assertion within `n + 1` rounds.
pub enumerate_ends :
    (read : ℕ → ℕ) (n offset : ℕ)
    → ((o : ℕ) → next_ptr read o < n * 4)
    → ((bs : List RegBlock) × (enumerate_reg_blocks read (n + 1) offset [] ≡ ok bs))
      ⊎ (enumerate_reg_blocks read (n + 1) offset [] ≡ err assertion_error)
enumerate_ends read n offset bound =
    walk_ends read n (n + 1) offset [] bound
      (omega (arith, unseen-le n ([] ++ block_at read offset ∷ [])))
