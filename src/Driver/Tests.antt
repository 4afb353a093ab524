-- ===== src/Driver/Tests.antt =====
-- A device with one interface, whose window starts at 0x1000.
use schedra_nic.Prelude.{
  ℕ, zero, suc, ◌+◌, ◌*◌, ◌-◌, ◌<◌, ◌≡◌, refl, subst, List, [], ◌∷◌, ◌==◌, if◌then◌else◌, some,
  arith, ltb, false,
}
use mathlib.Core.Path.{fun_ext}
use schedra_nic.Device.{ok}
use schedra_nic.Regs
use schedra_nic.RegBlocks.{RegBlock, block_at, enumerate_reg_blocks, find, matches}
use schedra_nic.Ring.Slots.{holds}
use schedra_nic.Interrupts.{msi_list}
use schedra_nic.Setup.Built.{Present}
use schedra_nic.Setup.Example
use schedra_nic.Driver.{Driver, places_at, interface_window, init_common}
use schedra_nic.Driver.Ready.{IsReady, init_common_lem}
use schedra_nic.Sample.{packets, packets-Owns, slots}

-- The driver's own blocks: the identity at 0, the interfaces' block at 64.
abbrev front : ℕ → ℕ
front o =
    if o == 0
    then 0xffffffff
    else if o == 4
    then 0x100
    else if o == 8
    then 64
    else if o == 64
    then 0xc000
    else if o == 68
    then 0x100
    else if o == 76
    then 0x1000
    else if o == 80
    then 1
    else if o == 84
    then 0x1000
    else 0

abbrev registers : ℕ → ℕ
registers o = if ltb o 0x1000 then front o else Example.registers (o - 0x1000)

abbrev fw : RegBlock
fw = block_at registers 0

abbrev if_rb : RegBlock
if_rb = record { offset = 64; rb_type = 0xc000; version = 0x100 }

abbrev blocks : List RegBlock
blocks = fw ∷ if_rb ∷ []

walk_run : enumerate_reg_blocks registers 8 0 [] ≡ ok blocks
unfolding enumerate_reg_blocks block_at
walk_run = refl

fw_run : find Regs.mqnic_rb_fw_id_type (some Regs.mqnic_rb_fw_id_ver) 0 blocks ≡ some fw
unfolding find matches block_at
fw_run = refl

if_run : find Regs.mqnic_rb_if_type (some Regs.mqnic_rb_if_ver) 0 blocks ≡ some if_rb
unfolding find matches block_at
if_run = refl

same_window :
    (o : ℕ) → Example.registers o ≡ interface_window registers (places_at registers if_rb) 0 o
same_window o =
    let past : ltb (0x1000 + 0 * 0x1000 + o) 0x1000 ≡ false = ground arith in
    let back : 0x1000 + 0 * 0x1000 + o - 0x1000 ≡ o = omega arith in rw (past, back) refl

one_present :
    (j : ℕ) → j < 1 → Present 8 (interface_window registers (places_at registers if_rb) j) 0
one_present zero l = subst (λ f. Present 8 f 0) (fun_ext same_window) Example.present
one_present (suc j) l = absurd (omega arith)

init_common_lem_example :
    (d : Driver) × (init_common 8 registers msi_list packets ≡ ok d)
    × (d.places ≡ some (places_at registers if_rb))
    × IsReady (λ j. 0 + holds slots j) 4 1 0 (d.interfaces, d.packets)
init_common_lem_example =
    init_common_lem registers msi_list fw if_rb (λ j. 0 + holds slots j) 4 walk_run fw_run if_run
      one_present packets-Owns (omega arith)
