-- ===== src/Driver/Handler/Down.antt =====
-- The handler of an interrupt on an interface whose port is down: nothing is consumed, and the EQs of
-- the interrupt are armed again.
use mathlib.Core.List.{append-nil, append_assoc}
use schedra_nic.Prelude.{
  ℕ, ◌+◌, ◌≡◌, refl, ap, ◌∙◌, sym, false, inl, inr, List, [], ◌∷◌, ◌++◌, some, arith, length,
  get_elem?, if◌then◌else◌, Bool-cases, range_from, length-append,
}
use schedra_nic.Device.{ok, Write}
use schedra_nic.Struct.{Bytes}
use schedra_nic.Packets.{Packets}
use schedra_nic.Eq
use schedra_nic.Eq.{Eq}
use schedra_nic.Interface.{
  Interface, Changed, irq_is, nth, process_eq, serve, serve_all, interrupt_handler,
}

-- The writes that arm the EQs of an interrupt, in order, from a place on.
abbrev pub arms : (index : ℕ) → List Eq → List Write
arms index [] = []
arms index (eq ∷ eqs) = (if irq_is index eq.irq then Eq.arm eq else []) ++ arms index eqs

process_eq_down :
    (mem : Bytes) (place : ℕ) (i : Interface) (packets : Packets)
    → i.port_up ≡ false
    → process_eq mem place i packets ≡ ok (i, packets, [])
unfolding process_eq
process_eq_down mem place i packets down = rw down refl

found :
    (eqs : List Eq) (place : ℕ) {eq : Eq} → get_elem? eqs place ≡ some eq → nth eqs place ≡ ok eq
found eqs place at = ground (arith, at)

-- An EQ of the interrupt is armed only.
serve_down :
    (mem : Bytes) (place : ℕ) (s : Changed) {eq : Eq}
    → s.0.port_up ≡ false
    → get_elem? s.0.eqs place ≡ some eq
    → serve mem place s ≡ ok (s.0, s.1, s.2 ++ Eq.arm eq)
unfolding serve
serve_down mem place s down at =
    rw (process_eq_down mem place s.0 s.1 down, found s.0.eqs place at, append-nil s.2) refl

-- The element behind a list.
behind :
    (pre : List Eq) (eq : Eq) (rest : List Eq) → get_elem? (pre ++ eq ∷ rest) (length pre) ≡ some eq
behind [] eq rest = refl
behind (x ∷ xs) eq rest = behind xs eq rest

-- The loop, from an EQ on.
serve_all_down :
    (mem : Bytes) (index : ℕ) (pre rest : List Eq) (s : Changed)
    → s.0.port_up ≡ false
    → s.0.eqs ≡ pre ++ rest
    → serve_all mem index (range_from (length pre) (length rest)) s
      ≡ ok (s.0, s.1, s.2 ++ arms index rest)
unfolding serve_all
serve_all_down mem index pre [] s down e = rw (append-nil s.2) refl
serve_all_down mem index pre (eq ∷ rest) s down e =
    let at : get_elem? s.0.eqs (length pre) ≡ some eq =
      ap (λ l. get_elem? l (length pre)) e ∙ behind pre eq rest in
    let e' : s.0.eqs ≡ (pre ++ eq ∷ []) ++ rest = e ∙ sym (append_assoc pre (eq ∷ []) rest) in
    let n : length (pre ++ eq ∷ []) ≡ length pre + 1 = length-append pre (eq ∷ []) in
    elim (Bool-cases (irq_is index eq.irq)) [
      | inl mine ↦
          let t : Changed = (s.0, s.1, s.2 ++ Eq.arm eq) in
          let rest_done = rw n at (serve_all_down mem index (pre ++ eq ∷ []) rest t down e') in
          rw
            (
              found s.0.eqs (length pre) at,
              mine,
              serve_down mem (length pre) s down at,
              rest_done,
              append_assoc s.2 (Eq.arm eq) (arms index rest),
            )
            refl
      | inr other ↦
          let rest_done = rw n at (serve_all_down mem index (pre ++ eq ∷ []) rest s down e') in
          rw (found s.0.eqs (length pre) at, other, rest_done) refl
    ]

-- On an interface whose port is down, the handler raises nothing and changes nothing, and arms the
-- EQs of the interrupt, in order.
pub interrupt_handler_down :
    (mem : Bytes) (index : ℕ) (i : Interface) (packets : Packets)
    → i.port_up ≡ false
    → interrupt_handler mem index i packets ≡ ok (i, packets, arms index i.eqs)
unfolding interrupt_handler
interrupt_handler_down mem index i packets down =
    serve_all_down mem index [] i.eqs (i, packets, []) down refl
