-- ===== src/Interface/Serve.antt =====
-- One EQ served by `Driver.interrupt_handler`: processed and armed again.
use mathlib.Core.List.{append-nil, append_assoc}
use schedra_nic.Prelude.{
  ℕ, ◌+◌, ◌≤◌, ◌<◌, ◌≡◌, ◌≢◌, refl, ap, ◌∙◌, true, false, List, [], ◌++◌, some, get_elem?, arith,
}
use schedra_nic.Device.{ok, Write}
use schedra_nic.Regs.{mqnic_event_type_cpl}
use schedra_nic.Struct.{Bytes}
use schedra_nic.Eq
use schedra_nic.Eq.{Eq, write_cons_ptr}
use schedra_nic.Interface.{Changed, event_field, serve}
use schedra_nic.Interface.Well.{IsWell, eq_old}
use schedra_nic.Interface.Handlers.{Keeps}
use schedra_nic.Interface.Events.{Serves}
use schedra_nic.Interface.EqServed.{process_eq_lem}

-- What an interrupt has done of an EQ that was at a place: it has no new event, each CQ that it
-- announced is idle, and its pointer was written to the device and the EQ armed right after.
pub record Done (place : ℕ) (eq : Eq) (s : Changed) : Type 0 where
  pub cons_ptr : ℕ
  pub eq_at : get_elem? s.0.eqs place ≡ some (record eq { cons_ptr = cons_ptr })
  pub forward : eq.cons_ptr ≤ cons_ptr
  pub one_round : cons_ptr ≤ eq.cons_ptr + eq.size
  pub at_old : eq_old eq cons_ptr ≡ true
  pub consumed : (d : ℕ) → eq.cons_ptr ≤ d → d < cons_ptr → eq_old eq d ≡ false
  pub served :
      (d : ℕ)
      → eq.cons_ptr ≤ d
      → d < cons_ptr
      → event_field eq d 0 ≡ mqnic_event_type_cpl
      → Serves eq d s.0
  pub before : List Write
  pub published : List Write
  pub after : List Write
  pub is_published : write_cons_ptr (record eq { cons_ptr = cons_ptr }) ≡ ok published
  pub armed : s.2 ≡ before ++ (published ++ Eq.arm (record eq { cons_ptr = cons_ptr })) ++ after

-- It stays so, while the interface is kept, the EQ is not touched and writes are added.
pub Done-on :
    {mem : Bytes} {other : ℕ → ℕ} {slack : ℕ} (place : ℕ) (eq : Eq) (s s' : Changed)
    (w : List Write)
    → Done place eq s
    → Keeps mem other slack s.0 s'
    → get_elem? s'.0.eqs place ≡ get_elem? s.0.eqs place
    → s'.2 ≡ s.2 ++ w
    → Done place eq s'
Done-on place eq s s' w d keeps same grew = record {
  cons_ptr = d.cons_ptr;
  eq_at = same ∙ d.eq_at;
  forward = d.forward;
  one_round = d.one_round;
  at_old = d.at_old;
  consumed = d.consumed;
  served = λ x l u type. let (p, t, idle) = d.served x l u type in (p, t, keeps.idle p idle);
  before = d.before;
  published = d.published;
  after = d.after ++ w;
  is_published = d.is_published;
  armed =
      grew
      ∙ ap (λ z. z ++ w) d.armed
      ∙ append_assoc (d.before ++ (d.published ++ Eq.arm (record eq { cons_ptr = d.cons_ptr })))
          d.after w;
}

-- One EQ served.
pub serve_lem :
    {other : ℕ → ℕ} {slack : ℕ} (mem : Bytes) (place : ℕ) (eq : Eq) (s : Changed)
    → IsWell s.0 s.1 other slack
    → s.0.port_up ≡ true
    → get_elem? s.0.eqs place ≡ some eq
    → (s' : Changed) × (serve mem place s ≡ ok s')
      × Keeps mem other slack s.0 s'
      × ((p : ℕ) → place ≢ p → get_elem? s'.0.eqs p ≡ get_elem? s.0.eqs p)
      × ((w : List Write) × (s'.2 ≡ s.2 ++ w))
      × Done place eq s'
unfolding serve
serve_lem mem place eq s well up at =
    let (r, e, v) = process_eq_lem mem place well up at in
    let armed = Eq.arm (record eq { cons_ptr = v.cons_ptr }) in
    (
      (r.0, r.1, s.2 ++ r.2 ++ armed),
      ground (arith, e, v.eq_at),
      record {
        well = v.keeps.well;
        port_up = v.keeps.port_up;
        links = v.keeps.links;
        idle = v.keeps.idle;
        received = v.keeps.received;
      },
      v.others,
      (r.2 ++ armed, append_assoc s.2 r.2 armed),
      record {
        cons_ptr = v.cons_ptr;
        eq_at = v.eq_at;
        forward = v.forward;
        one_round = v.one_round;
        at_old = v.at_old;
        consumed = v.consumed;
        served = v.served;
        before = s.2 ++ v.before;
        published = v.published;
        after = [];
        is_published = v.is_published;
        armed = rw v.writes (simp (append_assoc, append-nil) refl);
      },
    )
