-- ===== src/Setup/Example.antt =====
-- The register file of a device with one queue of each kind, two CQs and one port.
use schedra_nic.Prelude.{ℕ, ◌≡◌, refl, List, [], ◌∷◌, ◌==◌, if◌then◌else◌, range_from}
use schedra_nic.Device.{ok}
use schedra_nic.RegBlocks.{RegBlock, block_at, enumerate_reg_blocks, find, matches}
use schedra_nic.Port.{Port, init_port, found_port, clear_ctrl}
use schedra_nic.Setup.{make_ports}
use schedra_nic.Setup.Built.{Present}

abbrev pub registers : ℕ → ℕ
registers = λ o.
    if o == 0
    then 0xc001
    else if o == 4
    then 0x400
    else if o == 8
    then 0x40
    else if o == 16
    then 1
    else if o == 32
    then 0x5dc
    else if o == 36
    then 0x23fe
    else if o == 64
    then 0xc010
    else if o == 68
    then 0x400
    else if o == 72
    then 0x80
    else if o == 76
    then 0x1000
    else if o == 80
    then 1
    else if o == 84
    then 0x20
    else if o == 128
    then 0xc020
    else if o == 132
    then 0x400
    else if o == 136
    then 0xc0
    else if o == 140
    then 0x3000
    else if o == 144
    then 2
    else if o == 148
    then 0x20
    else if o == 192
    then 0xc030
    else if o == 196
    then 0x400
    else if o == 200
    then 0x100
    else if o == 204
    then 0x2000
    else if o == 208
    then 1
    else if o == 212
    then 0x20
    else if o == 256
    then 0xc031
    else if o == 260
    then 0x400
    else if o == 264
    then 0x140
    else if o == 268
    then 0x4000
    else if o == 272
    then 1
    else if o == 276
    then 0x20
    else if o == 320
    then 0xc090
    else if o == 324
    then 0x200
    else if o == 328
    then 0x180
    else if o == 332
    then 0x200
    else if o == 336
    then 0x5000
    else if o == 384
    then 0xc002
    else if o == 388
    then 0x200
    else if o == 396
    then 0x1c0
    else if o == 448
    then 0xc003
    else if o == 452
    then 0x300
    else if o == 460
    then 5
    else 0

abbrev pub ctrl : RegBlock
ctrl = block_at registers 0

abbrev pub eqm : RegBlock
eqm = block_at registers 64

abbrev pub cqm : RegBlock
cqm = block_at registers 128

abbrev pub tx_qm : RegBlock
tx_qm = block_at registers 192

abbrev pub rx_qm : RegBlock
rx_qm = block_at registers 256

abbrev pub map_rb : RegBlock
map_rb = block_at registers 320

abbrev pub port_rb : RegBlock
port_rb = block_at registers 384

-- The chain, as it is walked.
abbrev pub blocks : List RegBlock
blocks = ctrl ∷ eqm ∷ cqm ∷ tx_qm ∷ rx_qm ∷ map_rb ∷ port_rb ∷ []

pub walk_run : enumerate_reg_blocks registers 8 0 [] ≡ ok blocks
unfolding enumerate_reg_blocks block_at
walk_run = refl

abbrev pub port_ctrl : RegBlock
port_ctrl = block_at registers 448

abbrev pub port : Port
port = found_port registers 0 port_rb port_ctrl (port_ctrl ∷ [])

pub port_run : make_ports 8 registers blocks (range_from 0 1) ≡ ok (port ∷ [], clear_ctrl port)
unfolding make_ports init_port enumerate_reg_blocks find matches block_at clear_ctrl
port_run = refl

unfoldable pub present : Present 8 registers 0
unfolding find matches block_at
present = record {
  blocks = blocks;
  walk = walk_run;
  ctrl = ctrl;
  has_ctrl = refl;
  eqm = eqm;
  has_eqm = refl;
  cqm = cqm;
  has_cqm = refl;
  tx_qm = tx_qm;
  has_tx_qm = refl;
  rx_qm = rx_qm;
  has_rx_qm = refl;
  map_rb = map_rb;
  has_map = refl;
  ports = port ∷ [];
  port_writes = clear_ctrl port;
  come_up = port_run;
}
