-- ===== src/Packets.antt =====
-- The packet buffers of `class Driver` in tb/mqnic_core_pcie_us_schedule/mqnic.py: `alloc_pkt` and
-- `free_pkt`. The memory pool under them (`self.pool`) is not part of the repository: it is the
-- sequence of its answers, the base address of the n-th region that it is asked for, and the number
-- of regions that it has; what it does when it is asked for more is not followed. A buffer is known
-- by its base address.
pub mod Ownership
mod Tests
use schedra_nic.Prelude.{
  ℕ, ◌+◌, Bool, true, false, ◌||◌, List, [], ◌∷◌, ◌++◌, Option, none, some, ◌==◌,
}
use schedra_nic.Device.{Result, ok, err, guard, assertion_error, ◌>>=◌, ◌>>◌}

pub record Pool : Type 0 where
  pub answers : ℕ → ℕ
  pub capacity : ℕ
  pub taken : ℕ

-- `pool.alloc_region(size)`: the next answer. The size asked for is the caller's.
unfoldable pub alloc_region : Pool → ℕ × Pool
alloc_region p = (p.answers p.taken, record p { taken = p.taken + 1 })

-- `self.pkt_buf_size`
abbrev pub pkt_buf_size : ℕ
pkt_buf_size = 16384

pub record Packets : Type 0 where
  pub pool : Pool
  pub allocated_packets : List ℕ
  pub free_packets : List ℕ

abbrev pub elem : ℕ → List ℕ → Bool
elem j [] = false
elem j (x ∷ xs) = x == j || elem j xs

take_free : Packets → List ℕ → ℕ × Packets
take_free d (pkt ∷ rest) = (pkt, record d { free_packets = rest })
take_free d [] =
    let (pkt, pool') = alloc_region d.pool in
    (pkt, record d { pool = pool'; allocated_packets = d.allocated_packets ++ pkt ∷ [] })

unfoldable pub alloc_pkt : Packets → ℕ × Packets
unfolding take_free alloc_region
alloc_pkt d = take_free d d.free_packets

unfoldable pub free_pkt : Option ℕ → Packets → Result Packets
free_pkt none d = err assertion_error
free_pkt (some pkt) d = do
  guard (elem pkt d.allocated_packets) assertion_error
  ok (record d { free_packets = d.free_packets ++ pkt ∷ [] })
