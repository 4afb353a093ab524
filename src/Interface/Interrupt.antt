-- ===== src/Interface/Interrupt.antt =====
-- `Driver.interrupt_handler` on a well-formed interface whose port is up.
use mathlib.Core.List.{append-nil, append_assoc}
use schedra_nic.Prelude.{
  ℕ, zero, suc, ◌+◌, ◌≤◌, ◌<◌, ◌≡◌, ◌≢◌, refl, ap, ◌∙◌, subst, sym, inl, inr, true, false, List, [],
  ◌++◌, some, get_elem?, arith, Bool-cases, range_from, length, ℕ_discrete, get_elem?_in_range,
}
use schedra_nic.Device.{ok, Write}
use schedra_nic.Struct.{Bytes}
use schedra_nic.Packets.{Packets}
use schedra_nic.Eq.{Eq}
use schedra_nic.Interface.{Interface, Changed, serve_all, irq_is, interrupt_handler}
use schedra_nic.Interface.Well.{IsWell}
use schedra_nic.Interface.Handlers.{Keeps, Keeps-all, Keeps-on}
use schedra_nic.Interface.Serve.{Done, Done-on, serve_lem}

-- What the loop has done of the EQs from a place to another.
record Handled (mem : Bytes) (other : ℕ → ℕ) (slack index b a : ℕ) (s s' : Changed) : Type 0 where
  keeps : Keeps mem other slack s.0 s'
  before_a : (p : ℕ) → p < a → get_elem? s'.0.eqs p ≡ get_elem? s.0.eqs p
  elsewhere :
      (p : ℕ) (eq : Eq)
      → get_elem? s.0.eqs p ≡ some eq
      → irq_is index eq.irq ≡ false
      → get_elem? s'.0.eqs p ≡ some eq
  grew : (w : List Write) × (s'.2 ≡ s.2 ++ w)
  done :
      (p : ℕ) (eq : Eq)
      → a ≤ p
      → p < b
      → get_elem? s.0.eqs p ≡ some eq
      → irq_is index eq.irq ≡ true
      → Done p eq s'

-- The EQ in hand, and then the others.
then_others :
    {mem : Bytes} {other : ℕ → ℕ} {slack : ℕ} (index b a : ℕ) (eq : Eq) (s s1 s' : Changed)
    → get_elem? s.0.eqs a ≡ some eq
    → irq_is index eq.irq ≡ true
    → Keeps mem other slack s.0 s1
    → ((p : ℕ) → a ≢ p → get_elem? s1.0.eqs p ≡ get_elem? s.0.eqs p)
    → ((w : List Write) × (s1.2 ≡ s.2 ++ w))
    → Done a eq s1
    → Handled mem other slack index b (a + 1) s1 s'
    → Handled mem other slack index b a s s'
then_others {other} {slack} index b a eq s s1 s' at mine keeps others (w, grew) d h = record {
  keeps = Keeps-on s.0 s1 s' keeps h.keeps;
  before_a = λ p l. h.before_a p (omega arith) ∙ others p (omega (arith, l));
  elsewhere = λ p z g not_mine.
      h.elsewhere p z (others p (λ e. absurd (another p z g not_mine e)) ∙ g) not_mine;
  grew = (w ++ h.grew.0, h.grew.1 ∙ ap (λ z. z ++ h.grew.0) grew ∙ append_assoc s.2 w h.grew.0);
  done = λ p z l u g is_mine. elim (ℕ_discrete a p) [
    | yes e ↦
        Done-on p z s1 s' h.grew.0
          (subst (λ x. Done x z s1) e (subst (λ x. Done a x s1) (one_eq p z g e) d)) h.keeps
          (h.before_a p (omega arith)) h.grew.1
    | no ne ↦ h.done p z (omega arith) u (others p ne ∙ g) is_mine
  ];
}
  where
    one_eq : (p : ℕ) (z : Eq) → get_elem? s.0.eqs p ≡ some z → a ≡ p → eq ≡ z
    one_eq p z g e = cc

    another : (p : ℕ) (z : Eq) → get_elem? s.0.eqs p ≡ some z → irq_is index z.irq ≡ false → a ≢ p
    another p z g not_mine e =
        absurd (ground (arith, not_mine, mine, ap (λ x. irq_is index x.irq) (one_eq p z g e)))

-- An EQ of another interrupt is passed over.
passed_over :
    {mem : Bytes} {other : ℕ → ℕ} {slack : ℕ} (index b a : ℕ) (eq : Eq) (s s' : Changed)
    → get_elem? s.0.eqs a ≡ some eq
    → irq_is index eq.irq ≡ false
    → Handled mem other slack index b (a + 1) s s'
    → Handled mem other slack index b a s s'
passed_over index b a eq s s' at not_mine h = record {
  keeps = h.keeps;
  before_a = λ p l. h.before_a p (omega arith);
  elsewhere = h.elsewhere;
  grew = h.grew;
  done = λ p z l u g is_mine. elim (ℕ_discrete a p) [
    | yes e ↦
        absurd (ground (arith, not_mine, is_mine, ap (λ x. irq_is index x.irq) (one_eq p z g e)))
    | no ne ↦ h.done p z (omega arith) u g is_mine
  ];
}
  where
    one_eq : (p : ℕ) (z : Eq) → get_elem? s.0.eqs p ≡ some z → a ≡ p → eq ≡ z
    one_eq p z g e = cc

serve_all_lem :
    {other : ℕ → ℕ} {slack : ℕ} (mem : Bytes) (index b n a : ℕ) (s : Changed)
    → a + n ≡ b
    → IsWell s.0 s.1 other slack
    → s.0.port_up ≡ true
    → ((p : ℕ) → a ≤ p → p < b → (eq : Eq) × (get_elem? s.0.eqs p ≡ some eq))
    → (s' : Changed) × (serve_all mem index (range_from a n) s ≡ ok s')
      × Handled mem other slack index b a s s'
unfolding serve_all
serve_all_lem mem index b zero a s e well up all = (
  s,
  refl,
  record {
    keeps = Keeps-all s well;
    before_a = λ p l. refl;
    elsewhere = λ p eq g _. g;
    grew = ([], sym (append-nil s.2));
    done = λ p eq l u g _. absurd (omega arith);
  },
)
serve_all_lem mem index b (suc n) a s e well up all =
    let (eq, at) = all a (omega arith) (omega arith) in
    elim (Bool-cases (irq_is index eq.irq)) [
      | inl mine ↦
          let (s1, e1, keeps, others, grew, d) = serve_lem mem a eq s well up at in
          let (s', e', h) =
            serve_all_lem mem index b n (a + 1) s1 (omega arith) keeps.well (keeps.port_up ∙ up)
              (λ p l u.
                let (z, g) = all p (omega arith) u in (z, others p (omega (arith, l)) ∙ g)) in
          (
            s',
            ground (arith, at, mine, e1, e'),
            then_others index b a eq s s1 s' at mine keeps others grew d h,
          )
      | inr not_mine ↦
          let (s', e', h) =
            serve_all_lem mem index b n (a + 1) s (omega arith) well up
              (λ p l u. all p (omega arith) u) in
          (s', ground (arith, at, not_mine, e'), passed_over index b a eq s s' at not_mine h)
    ]

-- What the handler of an interrupt has done: the interface is kept; an EQ of the interrupt is
-- emptied, its CQs are idle, and it is armed again; the EQs of other interrupts are as they were.
pub record InterruptServed (mem : Bytes) (other : ℕ → ℕ) (slack index : ℕ) (i : Interface)
    (s : Changed) : Type 0 where
  pub keeps : Keeps mem other slack i s
  pub elsewhere :
      (p : ℕ) (eq : Eq)
      → get_elem? i.eqs p ≡ some eq
      → irq_is index eq.irq ≡ false
      → get_elem? s.0.eqs p ≡ some eq
  pub done :
      (p : ℕ) (eq : Eq)
      → p < length i.eqs
      → get_elem? i.eqs p ≡ some eq
      → irq_is index eq.irq ≡ true
      → Done p eq s

-- On a well-formed interface whose port is up, the handler of any interrupt raises nothing, ends,
-- and has done what InterruptServed says.
pub interrupt_handler_lem :
    {i : Interface} {packets : Packets} {other : ℕ → ℕ} {slack : ℕ} (mem : Bytes) (index : ℕ)
    → IsWell i packets other slack
    → i.port_up ≡ true
    → (s : Changed) × (interrupt_handler mem index i packets ≡ ok s)
      × InterruptServed mem other slack index i s
unfolding interrupt_handler
interrupt_handler_lem {i} {packets} mem index well up =
    let (s, e, h) =
      serve_all_lem mem index (length i.eqs) (length i.eqs) 0 (i, packets, []) (omega arith) well up
        (λ p _ u. get_elem?_in_range i.eqs p u) in
    (
      s,
      e,
      record {
        keeps = h.keeps;
        elsewhere = h.elsewhere;
        done = λ p eq u g mine. h.done p eq (omega arith) u g mine;
      },
    )
