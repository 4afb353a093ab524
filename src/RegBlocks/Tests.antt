-- ===== src/RegBlocks/Tests.antt =====
-- A register file with two blocks, walked and searched.
use schedra_nic.Prelude.{
  ℕ, ◌+◌, ◌≡◌, ◌⊎◌, refl, List, [], ◌∷◌, ◌++◌, none, arith, ◌==◌, if◌then◌else◌, get_elem?,
}
use schedra_nic.Device.{ok, err, assertion_error}
use schedra_nic.RegBlocks.{RegBlock, block_at, enumerate_reg_blocks, find}
use schedra_nic.RegBlocks.Chain.{Chain, enumerate-Chain, Chain-enumerate, matching, find_lem}
use schedra_nic.RegBlocks.Termination.{enumerate_ends}

-- At 0, a block of type 7 that names 64 as its successor; there, a block of type 9, the last.
abbrev registers : ℕ → ℕ
registers o =
    if o == 0 then 7 else if o == 4 then 256 else if o == 8 then 64 else if o == 64 then 9 else 0

abbrev both : List RegBlock
both = block_at registers 0 ∷ block_at registers 64 ∷ []

both-Chain : Chain registers [] 0 both
unfolding block_at
both-Chain = Chain.link (ground arith) refl refl (Chain.last refl)

walk_run : enumerate_reg_blocks registers 2 0 [] ≡ ok both
unfolding enumerate_reg_blocks block_at
walk_run = refl

enumerate-Chain_example : (bs : List RegBlock) × (both ≡ [] ++ bs) × Chain registers [] 0 bs
enumerate-Chain_example = enumerate-Chain registers 2 0 [] both walk_run

Chain-enumerate_example : enumerate_reg_blocks registers 2 0 [] ≡ ok ([] ++ both)
Chain-enumerate_example = Chain-enumerate registers both-Chain 2 (omega arith)

find_lem_example : find 9 none 0 both ≡ get_elem? (matching 9 none both) 0
find_lem_example = find_lem 9 none both 0

enumerate_ends_example :
    ((bs : List RegBlock) × (enumerate_reg_blocks registers (64 + 1) 0 [] ≡ ok bs))
    ⊎ (enumerate_reg_blocks registers (64 + 1) 0 [] ≡ err assertion_error)
enumerate_ends_example = enumerate_ends registers 64 0 (λ o. ground arith)
