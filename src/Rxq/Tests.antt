-- ===== src/Rxq/Tests.antt =====
-- A receive queue of eight descriptors, opened, filled and emptied.
use schedra_nic.Prelude.{◌+◌, ◌≡◌, refl, List, [], ◌∷◌, some, none, false, true, arith}
use schedra_nic.Device.{ok, Write}
use schedra_nic.Packets.{Packets}
use schedra_nic.Packets.Ownership.{Owns}
use schedra_nic.Resource.{new}
use schedra_nic.Resource.Laws.{new_lem, alloc-new}
use schedra_nic.Ring.{Slots, bit_length}
use schedra_nic.Ring.Slots.{holds, put-IsRing}
use schedra_nic.Struct.{word, peek}
use schedra_nic.Cq.{completed_index}
use schedra_nic.Cq.Completion.{Answers}
use schedra_nic.Txq.Transmit.{empty-IsRing}
use schedra_nic.Rxq
use schedra_nic.Rxq.{
  close, Rxq, RxQueue, Opened, open_rxq, refill_buffers, missing, Processed, process_rx_cq_up,
}
use schedra_nic.Rxq.Refill.{IsOpen, Topped, refill_buffers_lem}
use schedra_nic.Rxq.Receive.{Received, process_rx_cq_lem}
use schedra_nic.Rxq.Open.{Opens, open_rxq_lem}
use schedra_nic.Sample.{packets, packets-Owns, cq, cq-IsCq, only_first}

abbrev eight : Slots
eight = some 4096 ∷ none ∷ none ∷ none ∷ none ∷ none ∷ none ∷ none ∷ []

-- Its first slot holds a buffer.
abbrev rxq : Rxq
rxq = record Rxq.new {
  log_queue_size = 3;
  log_desc_block_size = 0;
  desc_block_size = 1;
  size = 8;
  size_mask = 7;
  full_size = 4;
  stride = 16;
  index = some 1;
  enabled = true;
  cq = some 0;
  rx_info = eight;
  prod_ptr = 1;
  hw_regs = some 0x2000;
}

rxq-IsOpen : IsOpen rxq
rxq-IsOpen = record {
  size = refl;
  size_mask = refl;
  full_size = refl;
  block = omega arith;
  stride = refl;
  ring = put-IsRing (empty-IsRing 3) 4096 (omega arith);
  window = (0x2000, refl);
}

rxq-Owns : Owns packets (λ j. 0 + holds eight j)
rxq-Owns = packets-Owns

rxq-Answers : Answers cq 3 7 1 0 0 eight
unfolding completed_index word peek
rxq-Answers = record {
  holds_packet = λ c l all. (4096, rw (only_first c all) refl);
  apart = λ b c l u all. absurd (omega (arith, only_first c all));
}

-- The buffers of a driver that has none in a ring.
none_held : Owns (record packets { free_packets = 4096 ∷ [] }) (λ j. 0)
none_held = record {
  balance = λ j. ground arith;
  fresh = packets-Owns.fresh;
  distinct = packets-Owns.distinct;
  addressable = packets-Owns.addressable;
  pool_addressable = packets-Owns.pool_addressable;
}

abbrev quiet : RxQueue
quiet = record { pkt_rx_queue = []; pkt_rx_sync = false }

refill_buffers_lem_example :
    (r : Rxq × Packets × List Write) × (refill_buffers rxq packets ≡ ok r)
    × Topped rxq packets (λ _. 0) r
unfolding missing
refill_buffers_lem_example = refill_buffers_lem rxq-IsOpen rxq-Owns (omega arith)

process_rx_cq_lem_example :
    (r : Processed) × (process_rx_cq_up (λ a. a) cq rxq packets quiet ≡ ok r)
    × Received (λ a. a) cq rxq packets (λ _. 0) quiet r
process_rx_cq_lem_example =
    process_rx_cq_lem rxq-IsOpen cq-IsCq (λ a. a) quiet rxq-Owns rxq-Answers (omega arith)

open_rxq_lem_example :
    (o : Opened) × (open_rxq 1 0 8 1
        (new 4 0x2000 32)
        (record packets { free_packets = 4096 ∷ [] })
        cq
        Rxq.new
      ≡ ok o)
    × Opens 1 0 8 cq (new 4 0x2000 32) (record packets { free_packets = 4096 ∷ [] }) 0 (λ _. 0) o
unfolding bit_length
open_rxq_lem_example =
    open_rxq_lem 1 0 8 1 Rxq.new 0 5 refl (new_lem 4 0x2000 32).0 (alloc-new 3 0x2000 32)
      (omega arith) (omega arith) refl none_held (omega arith)
