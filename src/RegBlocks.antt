-- ===== src/RegBlocks.antt =====
-- `class RegBlock` and `class RegBlockList` of tb/mqnic_core_pcie_us_schedule/mqnic.py: the chain of
-- register blocks of a device, walked once and then searched. The register file is a parameter,
-- `read`: the dword at an offset of the window.
pub mod Chain
pub mod Termination
mod Tests
use schedra_nic.Prelude.{
  ℕ, zero, suc, ◌+◌, Bool, true, false, not, ◌&&◌, ◌||◌, List, [], ◌∷◌, ◌++◌, Option, none, some,
  ◌==◌, if◌then◌else◌, bit_and, pred,
}
use schedra_nic.Device.{Result, ok, err, assertion_error, out_of_fuel}
use schedra_nic.Regs.{mqnic_rb_reg_type, mqnic_rb_reg_ver, mqnic_rb_reg_next_ptr}

pub record RegBlock : Type 0 where
  pub offset : ℕ
  pub rb_type : ℕ
  pub version : ℕ

-- `any(block.offset == offset for block in self.blocks)`
abbrev pub visited : ℕ → List RegBlock → Bool
visited offset [] = false
visited offset (b ∷ bs) = b.offset == offset || visited offset bs

module _ (read : ℕ → ℕ) where
  -- The block that stands at an offset.
  unfoldable pub block_at : ℕ → RegBlock
  block_at offset = record {
    offset = offset;
    rb_type = read (offset + mqnic_rb_reg_type);
    version = read (offset + mqnic_rb_reg_ver);
  }

  abbrev pub next_ptr : ℕ → ℕ
  next_ptr offset = read (offset + mqnic_rb_reg_next_ptr)

  -- `enumerate_reg_blocks(window, offset)`, with `blocks` the list found so far.
  unfoldable pub enumerate_reg_blocks : ℕ → ℕ → List RegBlock → Result (List RegBlock)
  enumerate_reg_blocks zero offset blocks = err out_of_fuel
  enumerate_reg_blocks (suc fuel) offset blocks =
      let found = blocks ++ block_at offset ∷ [] in
      let next = next_ptr offset in
      let rest = enumerate_reg_blocks fuel next found in
      if next == 0
      then ok found
      else if not (bit_and next 0x3 == 0)
      then err assertion_error
      else if visited next found
      then err assertion_error
      else rest

-- `block.type == rb_type and (not version or block.version == version)`; the version is left out,
-- or 0, to ask for any.
abbrev pub version_fits : Option ℕ → ℕ → Bool
version_fits none v = true
version_fits (some w) v = w == 0 || v == w

unfoldable pub matches : ℕ → Option ℕ → RegBlock → Bool
matches rb_type version b = b.rb_type == rb_type && version_fits version b.version

unfoldable pub find : ℕ → Option ℕ → ℕ → List RegBlock → Option RegBlock
unfolding matches
find rb_type version index [] = none
find rb_type version index (b ∷ bs) =
    let later = find rb_type version index bs in
    let later_less_one = find rb_type version (pred index) bs in
    if matches rb_type version b then (if index == 0 then some b else later_less_one) else later
