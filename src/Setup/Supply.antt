-- ===== src/Setup/Supply.antt =====
-- The resources that `Interface.init` makes of the manager blocks of the queues, all disabled.
use schedra_nic.Prelude.{
  ℕ, zero, suc, ◌+◌, ◌*◌, ◌≡◌, refl, ap, ◌∙◌, arith, List, length, min, range_from, map, bit_or,
}
use schedra_nic.Device.{Write, write_dword}
use schedra_nic.Regs
use schedra_nic.RegBlocks.{RegBlock}
use schedra_nic.Resource
use schedra_nic.Resource.{Resource, get_count}
use schedra_nic.Resource.Laws.{IsValid, new_lem}
use schedra_nic.Resource.Stock.{Stocked}
use schedra_nic.Setup.Init.{disable_all}
use schedra_nic.Setup.Fresh.{WrittenAll, write_all_lem}

-- What a manager block says of its queues, within the limit of the driver.
abbrev pub resource_of : (ℕ → ℕ) → RegBlock → (limit : ℕ) → Resource
resource_of read rb limit =
    Resource.new (min (read (rb.offset + 0x10)) limit) (read (rb.offset + 0xc))
      (read (rb.offset + 0x14))

-- The writes that disable all queues of a kind.
abbrev pub disables : (reg : ℕ) → Resource → List Write
disables reg r =
    map (λ k. write_dword (r.parent + k * r.stride) reg (bit_or Regs.mqnic_queue_cmd_set_enable 0))
      (range_from 0 r.count)

disable_all_lem :
    (reg : ℕ) (r : Resource)
    → IsValid r
    → WrittenAll reg
        (bit_or Regs.mqnic_queue_cmd_set_enable 0)
        (range_from 0 r.count)
        r
        (disable_all reg r)
unfolding disable_all get_count
disable_all_lem reg r v =
    write_all_lem reg (bit_or Regs.mqnic_queue_cmd_set_enable 0) (range_from 0 r.count) r v

pub all_free :
    (read : ℕ → ℕ) (rb : RegBlock) (limit : ℕ)
    → ((resource_of read rb limit).free_list ≡ range_from 0 (min (read (rb.offset + 0x10)) limit))
      × ((resource_of read rb limit).count ≡ min (read (rb.offset + 0x10)) limit)
unfolding Resource.new
all_free read rb limit = (refl, refl)

pub resource_off :
    (reg : ℕ) (read : ℕ → ℕ) (rb : RegBlock) (limit : ℕ)
    → WrittenAll reg
        (bit_or Regs.mqnic_queue_cmd_set_enable 0)
        (range_from 0 (resource_of read rb limit).count)
        (resource_of read rb limit)
        (disable_all reg (resource_of read rb limit))
resource_off reg read rb limit =
    disable_all_lem reg (resource_of read rb limit)
      (new_lem (min (read (rb.offset + 0x10)) limit) (read (rb.offset + 0xc))
        (read (rb.offset + 0x14))).0

length-range_from : (k n : ℕ) → length (range_from k n) ≡ n
length-range_from k zero = refl
length-range_from k (suc n) = ap suc (length-range_from (k + 1) n)

-- A resource has n indices, and all of them are free.
pub record Supplied (r : Resource) (n : ℕ) : Type 0 where
  pub stocked : Stocked r n
  pub count : get_count r ≡ n

-- All indices are free after the loop that disables the queues.
pub supplied_lem :
    (reg : ℕ) (read : ℕ → ℕ) (rb : RegBlock) (limit : ℕ)
    → Supplied (disable_all reg (resource_of read rb limit)).0 (min (read (rb.offset + 0x10)) limit)
unfolding get_count
supplied_lem reg read rb limit =
    let off = resource_off reg read rb limit in
    let (free, n) = all_free read rb limit in
    record {
      stocked = record {
        valid = off.valid;
        free = omega (
          arith,
          ap length (off.free_list ∙ free),
          length-range_from 0 (min (read (rb.offset + 0x10)) limit),
        );
      };
      count = off.count ∙ n;
    }
