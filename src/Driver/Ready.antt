-- ===== src/Driver/Ready.antt =====
-- `Driver.init_common`: the interfaces that it makes.
use schedra_nic.Prelude.{
  ℕ, zero, suc, ◌+◌, ◌≤◌, ◌<◌, ◌≡◌, refl, ap, ◌∙◌, subst, false, List, [], ◌∷◌, some, arith, length,
  range_from, get_elem?, same-some,
}
use schedra_nic.Device.{ok}
use schedra_nic.Regs
use schedra_nic.RegBlocks.{RegBlock, enumerate_reg_blocks, find}
use schedra_nic.Packets.{Packets}
use schedra_nic.Packets.Ownership.{Owns, available}
use schedra_nic.Eq.{Eq}
use schedra_nic.Setup.Init.{Initialised}
use schedra_nic.Setup.Built.{Present, init_interface_lem}
use schedra_nic.Interrupts.{Interrupt}
use schedra_nic.Driver.{
  Driver, Places, places_at, interface_window, init_interfaces, find_interfaces, init_common, ready,
}

-- The interfaces from a number on: each is down, and its EQs raise the interrupt of its number.
pub record IsReady (other : ℕ → ℕ) (slack n k : ℕ) (r : List Initialised × Packets) : Type 0 where
  pub how_many : length r.0 ≡ n
  pub each :
      (p : ℕ) (s : Initialised)
      → get_elem? r.0 p ≡ some s
      → (s.interface.port_up ≡ false)
        × ((e : ℕ) (eq : Eq) → get_elem? s.interface.eqs e ≡ some eq → eq.irq ≡ some (k + p))
  pub owns : Owns r.1 other
  pub left : slack ≤ available r.1

init_interfaces_lem :
    {rounds : ℕ} (read : ℕ → ℕ) (places : Places) (other : ℕ → ℕ) (slack n k : ℕ)
    {packets : Packets}
    → ((j : ℕ)
        → k ≤ j
        → j < k + n
        → Present rounds (interface_window read places j) places.if_csr_offset)
    → Owns packets other
    → slack + n ≤ available packets
    → (r : List Initialised × Packets) × (init_interfaces rounds read places
          (range_from k n)
          packets
        ≡ ok r)
      × IsReady other slack n k r
unfolding init_interfaces
init_interfaces_lem read places other slack zero k {packets} present owns enough = (
  ([], packets),
  refl,
  record {
    how_many = refl;
    each = λ p s h. absurd (cc);
    owns = owns;
    left = omega (arith, enough);
  },
)
init_interfaces_lem read places other slack (suc n) k {packets} present owns enough =
    let (s, e, built) =
      init_interface_lem (interface_window read places k) places.if_csr_offset k {packets = packets}
        {other = other} {slack = slack + n} (present k (omega arith) (omega arith)) owns
        (omega (arith, enough)) in
    let (r, e', rest) =
      init_interfaces_lem read places other slack n (k + 1) {packets = s.packets}
        (λ j l u. present j (omega arith) (omega arith)) built.owns built.left in
    (
      (s ∷ r.0, r.1),
      rw (e, e') refl,
      record {
        how_many = ap suc rest.how_many;
        each = λ p z h. one_of s r.0 built.port_down built.interrupts rest.each p z h;
        owns = rest.owns;
        left = rest.left;
      },
    )
  where
    one_of :
        (s : Initialised) (l : List Initialised)
        → s.interface.port_up ≡ false
        → ((e : ℕ) (eq : Eq) → get_elem? s.interface.eqs e ≡ some eq → eq.irq ≡ some k)
        → ((p : ℕ) (z : Initialised)
            → get_elem? l p ≡ some z
            → (z.interface.port_up ≡ false)
              × ((e : ℕ) (eq : Eq)
                  → get_elem? z.interface.eqs e ≡ some eq
                  → eq.irq ≡ some (k + 1 + p)))
        → (p : ℕ) (z : Initialised) → get_elem? (s ∷ l) p ≡ some z
        → (z.interface.port_up ≡ false)
          × ((e : ℕ) (eq : Eq) → get_elem? z.interface.eqs e ≡ some eq → eq.irq ≡ some (k + p))
    one_of s l down first others zero z h =
        subst
          (λ (x : Initialised).
            (x.interface.port_up ≡ false)
            × ((e : ℕ) (eq : Eq) → get_elem? x.interface.eqs e ≡ some eq → eq.irq ≡ some (k + 0)))
          (same-some h) (down, λ e eq g. first e eq g ∙ ap some (omega arith))
    one_of s l down first others (suc p) z h =
        let (d, irqs) = others p z h in (d, λ e eq g. irqs e eq g ∙ ap some (omega arith))

-- A device whose register blocks hold the identity and an interface block, and each interface's
-- window all that init_interface looks for, while there is a packet buffer for each interface
-- besides `slack`: init_common raises nothing, makes as many interfaces as the block says, each
-- down with its EQs on the interrupt of its number, and the packet buffers stay in their places.
pub init_common_lem :
    {rounds : ℕ} (read : ℕ → ℕ) (irq_list : List Interrupt) (fw if_rb : RegBlock)
    {blocks : List RegBlock} (other : ℕ → ℕ) (slack : ℕ) {packets : Packets}
    → enumerate_reg_blocks read rounds 0 [] ≡ ok blocks
    → find Regs.mqnic_rb_fw_id_type (some Regs.mqnic_rb_fw_id_ver) 0 blocks ≡ some fw
    → find Regs.mqnic_rb_if_type (some Regs.mqnic_rb_if_ver) 0 blocks ≡ some if_rb
    → ((j : ℕ)
        → j < (places_at read if_rb).if_count
        → Present rounds
            (interface_window read (places_at read if_rb) j)
            (places_at read if_rb).if_csr_offset)
    → Owns packets other
    → slack + (places_at read if_rb).if_count ≤ available packets
    → (d : Driver) × (init_common rounds read irq_list packets ≡ ok d)
      × (d.places ≡ some (places_at read if_rb))
      × IsReady other slack (places_at read if_rb).if_count 0 (d.interfaces, d.packets)
unfolding init_common find_interfaces
init_common_lem read irq_list fw if_rb {blocks} other slack walk has_fw has_if present owns enough =
    let (r, e, up) =
      init_interfaces_lem read (places_at read if_rb) other slack (places_at read if_rb).if_count 0
        (λ j l u. present j (omega arith)) owns enough in
    (
      ready read blocks fw irq_list (some (places_at read if_rb), r.0, r.1),
      ground (arith, walk, has_fw, has_if, e),
      refl,
      up,
    )
