-- ===== src/Driver/Handler/All.antt =====
-- `Driver.interrupt_handler` on interfaces of which any may be up or down.
use mathlib.Core.List.{append-nil, append_assoc}
use schedra_nic.Prelude.{
  ℕ, suc, ◌+◌, ◌-◌, ◌≡◌, refl, true, false, inl, inr, List, [], ◌∷◌, ◌++◌, Bool-cases,
}
use schedra_nic.Device.{ok, Write}
use schedra_nic.Struct.{Bytes}
use schedra_nic.Packets.{Packets}
use schedra_nic.Interface.{Interface, Changed, interrupt_handler}
use schedra_nic.Interface.Well.{IsWell, held_by, ring_sizes, in_rings}
use schedra_nic.Interface.Interrupt.{InterruptServed, interrupt_handler_lem}
use schedra_nic.Driver.Handler.{handle_interfaces}
use schedra_nic.Driver.Handler.Formed.{
  IsWell-IsFormed, AreWell, others_hold, others_need, first-IsWell, rest-AreWell, both-AreWell,
}
use schedra_nic.Driver.Handler.Down.{arms, interrupt_handler_down}

-- What the handler has done of an interface, and the writes that it made: served it, with the
-- buffers as they were then, or armed its EQs.
pub data Handled (mem : Bytes) (index : ℕ) (i i' : Interface) (w : List Write) : Type 0 where
  served :
      (packets' : Packets) (other : ℕ → ℕ) (slack : ℕ)
      → i.port_up ≡ true
      → InterruptServed mem other slack index i (i', packets', w)
      → Handled mem index i i' w
  armed_only : i.port_up ≡ false → i' ≡ i → w ≡ arms index i.eqs → Handled mem index i i' w

-- The interfaces one after the other, and all writes in order.
pub data AllHandled (mem : Bytes) (index : ℕ)
    : List Interface → List Interface → List Write → Type 0 where
  handled_none : AllHandled mem index [] [] []
  handled_next :
      (i i' : Interface) (w : List Write) (is is' : List Interface) (ws : List Write)
      → Handled mem index i i' w
      → AllHandled mem index is is' ws
      → AllHandled mem index (i ∷ is) (i' ∷ is') (w ++ ws)

-- One interface, up or down.
one_handled :
    (mem : Bytes) (index : ℕ) (i : Interface) (packets : Packets) (other : ℕ → ℕ) (slack : ℕ)
    → IsWell i packets other slack
    → (s : Changed) × (interrupt_handler mem index i packets ≡ ok s)
      × Handled mem index i s.0 s.2
      × IsWell s.0 s.1 other slack
one_handled mem index i packets other slack well = elim (Bool-cases i.port_up) [
  | inl up ↦
      let (s, e, done) = interrupt_handler_lem mem index well up in
      (s, e, served s.1 other slack up done, done.keeps.well)
  | inr down ↦ (
    (i, packets, arms index i.eqs),
    interrupt_handler_down mem index i packets down,
    armed_only down refl refl,
    well,
  )
]

-- On interfaces that are all well formed, share the packet buffers and are up or down in any way,
-- the handler of any interrupt raises nothing and ends; in the order of the interfaces, it has
-- served each that is up, and of each that is down it has armed the EQs of the interrupt and
-- changed nothing; and the interfaces are well formed together as before, each buffer in one place
-- of all.
pub handle_interfaces_lem :
    (mem : Bytes) (index : ℕ) (is : List Interface) (packets : Packets) (writes : List Write)
    (other : ℕ → ℕ) (slack : ℕ)
    → AreWell is packets other slack
    → (is' : List Interface) × (packets' : Packets) × (ws : List Write) × (handle_interfaces mem
          index is packets writes
        ≡ ok (is', packets', writes ++ ws))
      × AllHandled mem index is is' ws
      × AreWell is' packets' other slack
unfolding handle_interfaces
handle_interfaces_lem mem index [] packets writes other slack well =
    ([], packets, [], rw (append-nil writes) refl, handled_none, well)
handle_interfaces_lem mem index (i ∷ is) packets writes other slack well =
    let (s, e, done, kept) =
      one_handled mem index i packets (others_hold is other) (others_need is slack)
        (first-IsWell i is well) in
    let (is', packets', ws, f, all, rest) =
      handle_interfaces_lem mem index is s.1 (writes ++ s.2) (λ j. other j + held_by s.0 j)
        (slack + (ring_sizes s.0 - in_rings s.0))
        (rest-AreWell s.0 is other slack (λ k z h. well.formed (suc k) z h) kept) in
    (
      s.0 ∷ is',
      packets',
      s.2 ++ ws,
      rw (e, f, append_assoc writes s.2 ws) refl,
      handled_next i s.0 s.2 is is' ws done all,
      both-AreWell s.0 is' (IsWell-IsFormed kept) rest,
    )
