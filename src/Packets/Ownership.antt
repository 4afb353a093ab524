-- ===== src/Packets/Ownership.antt =====
-- Each buffer that the driver has ever allocated is in one place: on the free list, or in one slot
-- of one ring.
use schedra_nic.Prelude.{
  ℕ, ◌+◌, ◌≤◌, ◌<◌, ◌≡◌, ◌≢◌, refl, ap, ◌^◌, ℕ_discrete, Bool, true, false, ◌||◌, List, [], ◌∷◌,
  ◌++◌, some, ◌==◌, arith, length, ◌-◌,
}
use schedra_nic.Device.{ok}
use schedra_nic.Packets.{
  Pool, alloc_region, Packets, elem, take_free, alloc_pkt, free_pkt, pkt_buf_size,
}

-- The pool's contract: no two of the regions that it has are the same.
abbrev pub IsDistinct : Pool → Type 0
IsDistinct p = (i j : ℕ) → i < j → j < p.capacity → p.answers i ≢ p.answers j

-- The buffers that `alloc_pkt` can still return: the free ones, and the regions left in the pool.
abbrev pub available : Packets → ℕ
available d = length d.free_packets + (d.pool.capacity - d.pool.taken)

abbrev pub one_if : Bool → ℕ
one_if true = 1
one_if false = 0

abbrev pub count : ℕ → List ℕ → ℕ
count j [] = 0
count j (x ∷ xs) = one_if (x == j) + count j xs

-- `held j` slots hold the buffer j. Every buffer that the driver has or can get lies within 64-bit
-- addresses.
pub record Owns (d : Packets) (held : ℕ → ℕ) : Type 0 where
  pub balance : (j : ℕ) → count j d.free_packets + held j ≡ one_if (elem j d.allocated_packets)
  pub fresh :
      (k : ℕ)
      → d.pool.taken ≤ k
      → k < d.pool.capacity
      → elem (d.pool.answers k) d.allocated_packets ≡ false
  pub distinct : IsDistinct d.pool
  pub addressable : (j : ℕ) → elem j d.allocated_packets ≡ true → j + pkt_buf_size < 2 ^ 64
  pub pool_addressable : (i : ℕ) → i < d.pool.capacity → d.pool.answers i + pkt_buf_size < 2 ^ 64

-- Ownership depends on the number of slots for each buffer alone.
pub Owns-agree :
    {d : Packets} {held held' : ℕ → ℕ} → ((j : ℕ) → held j ≡ held' j) → Owns d held → Owns d held'
Owns-agree same o = record {
  balance = λ j. omega (arith, o.balance j, same j);
  fresh = o.fresh;
  distinct = o.distinct;
  addressable = o.addressable;
  pool_addressable = o.pool_addressable;
}

count-append : (j x : ℕ) (xs : List ℕ) → count j (xs ++ x ∷ []) ≡ count j xs + one_if (x == j)
count-append j x [] = omega arith
count-append j x (y ∷ ys) = omega (arith, count-append j x ys)

elem-append : (j x : ℕ) (xs : List ℕ) → elem j (xs ++ x ∷ []) ≡ (x == j || elem j xs)
elem-append j x [] = refl
elem-append j x (y ∷ ys) = ground (arith, elem-append j x ys)

-- What `alloc_pkt` promises: the buffer it returns was in no slot and lies within 64-bit addresses;
-- every buffer is in one place once the caller has put it in a slot; one buffer fewer is available.
abbrev pub Taken : Packets → (ℕ → ℕ) → ℕ × Packets → Type 0
Taken d held (pkt, d') =
    (held pkt ≡ 0)
    × (pkt + pkt_buf_size < 2 ^ 64)
    × Owns d' (λ j. held j + one_if (pkt == j))
    × (available d' + 1 ≡ available d)

-- The first free buffer is taken.
take_first :
    {d : Packets} {held : ℕ → ℕ} {pkt : ℕ} {rest : List ℕ}
    → d.free_packets ≡ pkt ∷ rest
    → Owns d held
    → Taken d held (pkt, record d { free_packets = rest })
take_first {d} {held} {pkt} e o = (
  ground (arith, o.balance pkt, ap (count pkt) e),
  o.addressable pkt (ground (arith, o.balance pkt, ap (count pkt) e)),
  record {
    balance = λ j. ground (arith, o.balance j, ap (count j) e);
    fresh = o.fresh;
    distinct = o.distinct;
    addressable = o.addressable;
    pool_addressable = o.pool_addressable;
  },
  omega (arith, ap length e),
)

-- A new region is taken.
take_new :
    {d : Packets} {held : ℕ → ℕ}
    → d.free_packets ≡ []
    → d.pool.taken < d.pool.capacity
    → Owns d held
    → Taken d held (
      d.pool.answers d.pool.taken,
      record d {
        pool = record d.pool { taken = d.pool.taken + 1 };
        allocated_packets = d.allocated_packets ++ d.pool.answers d.pool.taken ∷ [];
      },
    )
take_new {d} {held} e left o = (
  ground (arith, o.balance new, unseen),
  o.pool_addressable d.pool.taken left,
  record {
    balance = λ j. ground (arith, o.balance j, elem-append j new d.allocated_packets, unseen);
    fresh = λ k h l. ground (
      arith,
      elem-append (d.pool.answers k) new d.allocated_packets,
      o.fresh k (omega arith) l,
      o.distinct d.pool.taken k (omega arith) l,
    );
    distinct = o.distinct;
    addressable = λ j h. elim (ℕ_discrete new j) [
      | yes same ↦ rw (← same) (o.pool_addressable d.pool.taken left)
      | no other ↦ o.addressable j (ground (arith, h, elem-append j new d.allocated_packets))
    ];
    pool_addressable = o.pool_addressable;
  },
  omega (arith, ap length e),
)
  where
    new : ℕ
    new = d.pool.answers d.pool.taken

    unseen : elem new d.allocated_packets ≡ false
    unseen = o.fresh d.pool.taken (omega arith) left

take_free_lem :
    {d : Packets} {held : ℕ → ℕ} (l : List ℕ)
    → d.free_packets ≡ l
    → 0 < available d
    → Owns d held
    → Taken d held (take_free d l)
unfolding take_free alloc_region
take_free_lem (pkt ∷ rest) e room o = take_first e o
take_free_lem [] e room o = take_new e (omega (arith, ap length e)) o

-- While a buffer is available, `alloc_pkt` returns one that was in no slot of any ring and lies
-- within 64-bit addresses; once it is put in a slot, every buffer is again in one place, and one
-- buffer fewer is available.
pub alloc_pkt_lem :
    {d : Packets} {held : ℕ → ℕ} → Owns d held → 0 < available d → Taken d held (alloc_pkt d)
unfolding alloc_pkt
alloc_pkt_lem {d} o room = take_free_lem d.free_packets refl room o

-- A region taken for other memory leaves the buffers in their places, and at most one fewer.
pub region-Owns :
    {d : Packets} {held : ℕ → ℕ}
    → Owns d held
    → Owns (record d { pool = (alloc_region d.pool).1 }) held
      × (available d ≤ available (record d { pool = (alloc_region d.pool).1 }) + 1)
unfolding alloc_region
region-Owns o = (
  record {
    balance = o.balance;
    fresh = λ k h. o.fresh k (omega arith);
    distinct = o.distinct;
    addressable = o.addressable;
    pool_addressable = o.pool_addressable;
  },
  omega arith,
)

length-append_one : (xs : List ℕ) (x : ℕ) → length (xs ++ x ∷ []) ≡ length xs + 1
length-append_one [] x = omega arith
length-append_one (y ∷ ys) x = omega (arith, length-append_one ys x)

-- A buffer that is in a slot can be freed: neither assertion of `free_pkt` fails. Once the slot is
-- cleared, every buffer is again in one place, and one buffer more is available.
pub free_pkt_lem :
    {d : Packets} {held after : ℕ → ℕ} (pkt : ℕ)
    → Owns d held
    → ((j : ℕ) → held j ≡ after j + one_if (pkt == j))
    → (d' : Packets) × (free_pkt (some pkt) d ≡ ok d')
      × Owns d' after
      × (available d' ≡ available d + 1)
unfolding free_pkt
free_pkt_lem {d} {held} {after} pkt o slot = (
  record d { free_packets = d.free_packets ++ pkt ∷ [] },
  ground (arith, o.balance pkt, slot pkt),
  record {
    balance = λ j. ground (arith, o.balance j, slot j, count-append j pkt d.free_packets);
    fresh = o.fresh;
    distinct = o.distinct;
    addressable = o.addressable;
    pool_addressable = o.pool_addressable;
  },
  omega (arith, length-append_one d.free_packets pkt),
)
