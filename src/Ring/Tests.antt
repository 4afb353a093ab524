-- ===== src/Ring/Tests.antt =====
-- "process ring" at a ring whose first slot is free again, and a ring that is given up.
use schedra_nic.Prelude.{◌+◌, ◌≡◌, refl, arith}
use schedra_nic.Device.{ok}
use schedra_nic.Ring.{Slots, bit_length, free_buf}
use schedra_nic.Ring.Slots.{IsRing, holds}
use schedra_nic.Packets.{Packets}
use schedra_nic.Packets.Ownership.{Owns}
use schedra_nic.Ring.Release.{IsFilled, free_buf_lem}
use schedra_nic.Sample.{packets, packets-Owns, slots, slots-IsRing}

bit_length_run : (bit_length 1 ≡ 1) × (bit_length 255 ≡ 8) × (bit_length 256 ≡ 9)
unfolding bit_length
bit_length_run = (refl, refl, refl)

slots-IsFilled : IsFilled 2 slots 1 0
slots-IsFilled = λ p l u. let e : p ≡ 0 = omega arith in (4096, rw e refl)

free_buf_lem_example :
    (info' : Slots) × (packets' : Packets) × (free_buf 1 3 1 0 slots packets
      ≡ ok (1, info', packets'))
    × IsRing 2 info' 1 1
    × Owns packets' (λ j. 0 + holds info' j)
free_buf_lem_example =
    free_buf_lem (λ _. 0) 1 0 3 slots-IsRing slots-IsFilled packets-Owns (omega arith) refl
