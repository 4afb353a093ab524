-- ===== src/Desc/Tests.antt =====
-- A block of two descriptors for a packet of 100 bytes: 42 in the first, 58 in the second.
use schedra_nic.Prelude.{ℕ, ◌*◌, ◌≡◌, arith}
use schedra_nic.Device.{ok}
use schedra_nic.Struct.{Bytes, peek, word}
use schedra_nic.Struct.Bytes.{Apart}
use schedra_nic.Desc.{write_tx_desc, write_rx_desc}
use schedra_nic.Desc.Frame.{desc_csum}
use schedra_nic.Desc.Gather.{
  gather, write_tx_desc_lem, write_rx_desc_lem, write_tx_desc_total, write_rx_desc_total,
}

abbrev blank : Bytes
blank = λ _. 0

abbrev memory : Bytes
memory = λ a. a * 7

tx_written : (result : Bytes) × (write_tx_desc 2 64 0x8000 4106 100 blank ≡ ok result)
tx_written =
    write_tx_desc_total 2 64 0x8000 4106 100 blank (omega arith) (omega arith) (omega arith)

rx_written : (result : Bytes) × (write_rx_desc 2 64 4096 16384 blank ≡ ok result)
rx_written = write_rx_desc_total 2 64 4096 16384 blank (omega arith) (omega arith)

write_tx_desc_lem_example :
    (gather memory tx_written.0 64 0 2 ≡ peek memory 4106 100)
    × (desc_csum tx_written.0 64 ≡ 0x8000)
    × ((b w : ℕ) → Apart 64 (2 * 16) b w → word tx_written.0 b w ≡ word blank b w)
write_tx_desc_lem_example =
    write_tx_desc_lem memory 2 64 0x8000 4106 100 blank (omega arith) tx_written.1

write_rx_desc_lem_example :
    (gather memory rx_written.0 64 0 2 ≡ peek memory 4096 16384)
    × ((b w : ℕ) → Apart 64 (2 * 16) b w → word rx_written.0 b w ≡ word blank b w)
write_rx_desc_lem_example =
    write_rx_desc_lem memory 2 64 4096 16384 blank (omega arith) rx_written.1
