-- ===== src/RegBlocks/Chain.antt =====
-- What the walk of `enumerate_reg_blocks` has found when it returns, and what `find` selects.
use schedra_nic.Prelude.{
  ℕ, zero, suc, ◌≡◌, ◌≢◌, refl, false, List, [], ◌∷◌, ◌++◌, Option, ◌==◌, if◌then◌else◌, get_elem?,
  length, ◌≤◌, arith, bit_and, Bool-cases, inl, inr, sym, ◌∙◌, ap,
}
use mathlib.Core.List.{append_assoc}
use schedra_nic.Device.{ok, err, assertion_error}
use schedra_nic.RegBlocks.{
  RegBlock, visited, block_at, next_ptr, enumerate_reg_blocks, matches, find,
}

-- The blocks from an offset on, each at the place that its predecessor's next pointer names, the
-- last with the next pointer 0. A next pointer is aligned and leads to no block found before it.
pub data Chain (read : ℕ → ℕ) : List RegBlock → ℕ → List RegBlock → Type 0 where
  last :
      {before : List RegBlock} {offset : ℕ}
      → next_ptr read offset ≡ 0
      → Chain read before offset (block_at read offset ∷ [])
  link :
      {before : List RegBlock} {offset : ℕ} {bs : List RegBlock}
      → next_ptr read offset ≢ 0
      → bit_and (next_ptr read offset) 0x3 ≡ 0
      → visited (next_ptr read offset) (before ++ block_at read offset ∷ []) ≡ false
      → Chain read (before ++ block_at read offset ∷ []) (next_ptr read offset) bs
      → Chain read before offset (block_at read offset ∷ bs)

-- One round of the walk.
pub data Round (read : ℕ → ℕ) (before : List RegBlock) (offset : ℕ) (fuel : ℕ) : Type 0 where
  stops :
      next_ptr read offset ≡ 0
      → enumerate_reg_blocks read (suc fuel) offset before
        ≡ ok (before ++ block_at read offset ∷ [])
      → Round read before offset fuel
  fails :
      enumerate_reg_blocks read (suc fuel) offset before ≡ err assertion_error
      → Round read before offset fuel
  goes_on :
      next_ptr read offset ≢ 0
      → bit_and (next_ptr read offset) 0x3 ≡ 0
      → visited (next_ptr read offset) (before ++ block_at read offset ∷ []) ≡ false
      → enumerate_reg_blocks read (suc fuel) offset before
        ≡ enumerate_reg_blocks read fuel
            (next_ptr read offset)
            (before ++ block_at read offset ∷ [])
      → Round read before offset fuel

walk_on :
    (read : ℕ → ℕ) (before : List RegBlock) (offset fuel : ℕ)
    → next_ptr read offset ≢ 0
    → bit_and (next_ptr read offset) 0x3 ≡ 0
    → visited (next_ptr read offset) (before ++ block_at read offset ∷ []) ≡ false
    → enumerate_reg_blocks read (suc fuel) offset before
      ≡ enumerate_reg_blocks read fuel (next_ptr read offset) (before ++ block_at read offset ∷ [])
unfolding enumerate_reg_blocks
walk_on read before offset fuel n a v = ground arith

pub enumerate-Round :
    (read : ℕ → ℕ) (before : List RegBlock) (offset fuel : ℕ) → Round read before offset fuel
unfolding enumerate_reg_blocks
enumerate-Round read before offset fuel = elim (Bool-cases (next_ptr read offset == 0)) [
  | inl z ↦ stops (ground arith) (rw z)
  | inr nz ↦ elim (Bool-cases (bit_and (next_ptr read offset) 0x3 == 0)) [
    | inr m ↦ fails (rw (nz, m))
    | inl al ↦
        elim (Bool-cases (visited (next_ptr read offset) (before ++ block_at read offset ∷ []))) [
          | inl v ↦ fails (rw (nz, al, v))
          | inr nv ↦ goes_on (ground arith) (ground arith) nv (rw (nz, al, nv))
        ]
  ]
]

ok-injective {ℓ} : {A : Type ℓ} {a b : A} → ok a ≡ ok b → a ≡ b
ok-injective e = cc

-- The list that a walk returns is the list it was given, followed by the whole chain from the offset
-- in order.
pub enumerate-Chain :
    (read : ℕ → ℕ) (fuel offset : ℕ) (before result : List RegBlock)
    → enumerate_reg_blocks read fuel offset before ≡ ok result
    → (bs : List RegBlock) × (result ≡ before ++ bs) × Chain read before offset bs
unfolding enumerate_reg_blocks
enumerate-Chain read zero offset before result h = cc
enumerate-Chain read (suc fuel) offset before result h =
    elim (enumerate-Round read before offset fuel) [
      | stops z e ↦ (block_at read offset ∷ [], ok-injective (sym h ∙ e), last z)
      | fails e ↦ cc
      | goes_on nz al nv e ↦
          let (bs, p, c) =
            enumerate-Chain read fuel (next_ptr read offset) (before ++ block_at read offset ∷ [])
              result (sym e ∙ h) in
          (
            block_at read offset ∷ bs,
            p ∙ append_assoc before (block_at read offset ∷ []) bs,
            link nz al nv c,
          )
    ]

-- A chain from an offset is found in order and whole, with one round for each of its blocks.
pub Chain-enumerate :
    (read : ℕ → ℕ) {offset : ℕ} {before : List RegBlock} {bs : List RegBlock}
    → Chain read before offset bs
    → (fuel : ℕ) → length bs ≤ fuel
    → enumerate_reg_blocks read fuel offset before ≡ ok (before ++ bs)
Chain-enumerate read (last e) zero h = absurd (omega arith)
Chain-enumerate read (last {before} {offset} e) (suc fuel) h =
    unfold enumerate_reg_blocks in ground arith
Chain-enumerate read (link n a v c) zero h = absurd (omega arith)
Chain-enumerate read (link {before} {offset} {bs} n a v c) (suc fuel) h =
    walk_on read before offset fuel n a v
    ∙ Chain-enumerate read c fuel (omega arith)
    ∙ ap ok (append_assoc before (block_at read offset ∷ []) bs)

-- `[b for b in blocks if b.type == rb_type and (...)]`
abbrev pub matching : ℕ → Option ℕ → List RegBlock → List RegBlock
matching t v [] = []
matching t v (b ∷ bs) = if matches t v b then b ∷ matching t v bs else matching t v bs

-- `find` returns the block with the given number among those that match, in the order in which
-- they were found, and None if there are not so many.
pub find_lem :
    (t : ℕ) (v : Option ℕ) (bs : List RegBlock) (index : ℕ)
    → find t v index bs ≡ get_elem? (matching t v bs) index
unfolding find
find_lem t v [] index = refl
find_lem t v (b ∷ bs) zero = ground (arith, find_lem t v bs zero)
find_lem t v (b ∷ bs) (suc i) = ground (arith, find_lem t v bs (suc i), find_lem t v bs i)
