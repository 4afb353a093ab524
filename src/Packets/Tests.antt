-- ===== src/Packets/Tests.antt =====
-- A packet buffer is taken and given back.
use schedra_nic.Prelude.{◌+◌, ◌^◌, ◌<◌, ◌≡◌, some, ◌==◌, arith}
use schedra_nic.Device.{ok}
use schedra_nic.Packets.{Packets, alloc_pkt, free_pkt, pkt_buf_size}
use schedra_nic.Packets.Ownership.{Owns, available, one_if, alloc_pkt_lem, free_pkt_lem}
use schedra_nic.Ring.Slots.{holds}
use schedra_nic.Sample.{packets, slots, packets-Owns}

alloc_pkt_lem_example :
    (0 + holds slots (alloc_pkt packets).0 ≡ 0)
    × ((alloc_pkt packets).0 + pkt_buf_size < 2 ^ 64)
    × Owns (alloc_pkt packets).1 (λ j. 0 + holds slots j + one_if ((alloc_pkt packets).0 == j))
    × (available (alloc_pkt packets).1 + 1 ≡ available packets)
alloc_pkt_lem_example = alloc_pkt_lem packets-Owns (omega arith)

free_pkt_lem_example :
    (d : Packets) × (free_pkt (some 4096) packets ≡ ok d)
    × Owns d (λ j. 0)
    × (available d ≡ available packets + 1)
free_pkt_lem_example = free_pkt_lem 4096 packets-Owns (λ j. ground arith)
