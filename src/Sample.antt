-- ===== src/Sample.antt =====
-- Concrete states of the driver that the tests use: a pool of 16 regions, of which the driver has
-- taken one, which stands in the first slot of a ring.
use schedra_nic.Prelude.{
  ℕ, zero, suc, ◌+◌, ◌*◌, ◌≡◌, refl, true, [], ◌∷◌, none, some, ◌==◌, if◌then◌else◌, arith,
}
use schedra_nic.Packets.{Pool, Packets}
use schedra_nic.Packets.Ownership.{Owns}
use schedra_nic.Ring.{Slots}
use schedra_nic.Ring.Slots.{IsRing, holds, put-IsRing}
use schedra_nic.Txq
use schedra_nic.Txq.{Txq}
use schedra_nic.Txq.Transmit.{IsOpen, empty-IsRing}
use schedra_nic.Struct.{word, peek}
use schedra_nic.Drain.{is_empty}
use schedra_nic.Cq
use schedra_nic.Cq.{Cq, completed_index}
use schedra_nic.Cq.Completion.{IsCq, Answers, AllNew, is_old}

abbrev pub pool : Pool
pool = record { answers = λ i. 4096 + 16384 * i; capacity = 16; taken = 1 }

abbrev pub packets : Packets
packets = record { pool = pool; allocated_packets = 4096 ∷ []; free_packets = [] }

abbrev pub slots : Slots
slots = some 4096 ∷ none ∷ none ∷ none ∷ []

pub packets-Owns : Owns packets (λ j. 0 + holds slots j)
packets-Owns = record {
  balance = λ j. ground arith;
  fresh = λ k h l. ground arith;
  distinct = λ i j h l e. omega arith;
  addressable = λ j h. ground arith;
  pool_addressable = λ i h. omega arith;
}

-- The first of four slots is outstanding.
pub slots-IsRing : IsRing 2 slots 1 0
slots-IsRing = put-IsRing (empty-IsRing 2) 4096 (omega arith)

-- A CQ of one entry, whose completion names slot 0.
abbrev pub cq : Cq
cq = record Cq.new {
  size = 1;
  stride = 32;
  cqn = some 5;
  buf = λ b. if b == 31 then 0x80 else 0;
  hw_regs = some 0x3000;
}

pub cq-IsCq : IsCq cq
cq-IsCq = record { size = refl; size_mask = refl; window = (0x3000, refl) }

old_next : is_old cq 1 ≡ true
unfolding is_empty word peek
old_next = refl

pub only_first : (c : ℕ) → AllNew cq 0 c → c ≡ 0
only_first zero all = refl
only_first (suc c) all = absurd (ground (arith, all 1 (omega arith) (omega arith), old_next))

pub cq-Answers : Answers cq 2 3 1 0 0 slots
unfolding completed_index word peek
cq-Answers = record {
  holds_packet = λ c l all. (4096, rw (only_first c all) refl);
  apart = λ b c l u all. absurd (omega (arith, only_first c all));
}

-- A queue of four blocks of two descriptors, whose first slot is outstanding.
abbrev pub txq : Txq
txq = record Txq.new {
  log_queue_size = 2;
  log_desc_block_size = 1;
  desc_block_size = 2;
  size = 4;
  size_mask = 3;
  full_size = 2;
  stride = 32;
  index = some 1;
  enabled = true;
  cq = some 0;
  tx_info = slots;
  prod_ptr = 1;
  hw_regs = some 0x2000;
}

pub txq-IsOpen : IsOpen txq
txq-IsOpen = record {
  size = refl;
  size_mask = refl;
  full_size = refl;
  block = omega arith;
  stride = refl;
  ring = slots-IsRing;
  window = (0x2000, refl);
}
