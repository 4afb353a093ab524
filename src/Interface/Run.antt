-- ===== src/Interface/Run.antt =====
-- What every run of an open interface keeps, and what becomes of the packets that arrive in it.
use schedra_nic.Prelude.{
  ℕ, ◌^◌, ◌+◌, ◌-◌, ◌≤◌, ◌<◌, ◌≡◌, refl, ap, ◌∙◌, sym, subst, true, List, arith, [], ◌∷◌, ◌++◌,
  Option, length,
}
use mathlib.Core.List.{append-nil, append_assoc}
use schedra_nic.Device.{ok}
use schedra_nic.Packets.{Packets, pkt_buf_size}
use schedra_nic.Eq.{Eq}
use schedra_nic.Cq.{Cq}
use schedra_nic.Cq.Completion.{IsCq}
use schedra_nic.Txq.{Txq}
use schedra_nic.Rxq.{Packet, RxQueue}
use schedra_nic.Xmit.{csum_command, ring_of}
use schedra_nic.Interface.{
  Interface, Changed, After, interrupt_handler, xmit, recv_nowait, place_of,
}
use schedra_nic.Interface.Well.{IsWell, Linked, to_tx, to_rx, IsEq, AllFresh, Names}
use schedra_nic.Interface.Handlers.{Keeps}
use schedra_nic.Interface.Cqs.{IsEq-links}
use schedra_nic.Interface.Interrupt.{InterruptServed, interrupt_handler_lem}
use schedra_nic.Interface.Sends.{Came, xmit_lem}
use schedra_nic.Interface.Steps.{
  State, Reports, Step, interrupt, send, receive, device, Run, start, step, queue, handed, taken_by,
  taken, CameIn, CameDuring, at_start, one_step,
}

reported-IsCq : (q q' : Cq) → q' ≡ record q { buf = q'.buf } → IsCq q → IsCq q'
reported-IsCq q q' e v =
    subst IsCq (sym e) (record { size = v.size; size_mask = v.size_mask; window = v.window })

reported-IsEq :
    (cqs : List Cq) (eq eq' : Eq)
    → eq' ≡ record eq { buf = eq'.buf }
    → ((c : ℕ) → eq'.cons_ptr ≤ c → AllFresh eq' eq'.cons_ptr c → Names cqs eq' c)
    → IsEq cqs eq
    → IsEq cqs eq'
reported-IsEq cqs eq eq' e named v = record {
  size = ap (λ (z : Eq). z.size) e ∙ v.size ∙ ap (λ (z : Eq). 2 ^ z.log_size) (sym e);
  size_mask =
      ap (λ (z : Eq). z.size_mask) e ∙ v.size_mask ∙ ap (λ (z : Eq). 2 ^ z.log_size - 1) (sym e);
  window = (v.window.0, ap (λ (z : Eq). z.hw_regs) e ∙ v.window.1);
  events = named;
}

module _ {i : Interface} {packets : Packets} {other : ℕ → ℕ} {slack : ℕ}
    (well : IsWell i packets other slack) where
  Reports-IsWell :
      (cqs : List Cq) (eqs : List Eq)
      → Reports i cqs eqs
      → IsWell (record i { cqs = cqs; eqs = eqs }) packets other slack
  Reports-IsWell cqs eqs d = record {
    tx_open = well.tx_open;
    rx_open = well.rx_open;
    cq_open = λ p q' h.
        let (q, at, e, l) = d.completions p q' h in
        (reported-IsCq q q' e (well.cq_open p q at).0, still_linked q' l);
    one_each = λ p p' k ne e f.
        well.one_each p p' k ne (sym (d.same_links p) ∙ e) (sym (d.same_links p') ∙ f);
    eq_open = λ p eq' h.
        let (eq, at, e, named) = d.events p eq' h in
        IsEq-links d.same_links (reported-IsEq i.cqs eq eq' e named (well.eq_open p eq at));
    owns = well.owns;
    enough = well.enough;
  }
    where
      still_linked : (q : Cq) → Linked i q → Linked (record i { cqs = cqs; eqs = eqs }) q
      still_linked q (to_tx r t h s at a) = to_tx r t h s at a
      still_linked q (to_rx r t h s at a) = to_rx r t h s at a

  received-IsWell : (rx : RxQueue) → IsWell (record i { rx = rx }) packets other slack
  received-IsWell rx = record {
    tx_open = well.tx_open;
    rx_open = well.rx_open;
    cq_open = λ p q h. ((well.cq_open p q h).0, still_linked q (well.cq_open p q h).1);
    one_each = well.one_each;
    eq_open = well.eq_open;
    owns = well.owns;
    enough = well.enough;
  }
    where
      still_linked : (q : Cq) → Linked i q → Linked (record i { rx = rx }) q
      still_linked q (to_tx r t h s at a) = to_tx r t h s at a
      still_linked q (to_rx r t h s at a) = to_rx r t h s at a

popped :
    (rx : RxQueue) → rx.pkt_rx_queue ≡ handed (recv_nowait rx).0 ++ (recv_nowait rx).1.pkt_rx_queue
unfolding recv_nowait
popped rx = from_front rx.pkt_rx_queue refl
  where
    from_front :
        (l : List Packet)
        → rx.pkt_rx_queue ≡ l
        → rx.pkt_rx_queue ≡ handed (recv_nowait rx).0 ++ (recv_nowait rx).1.pkt_rx_queue
    from_front [] e = ground (arith, e)
    from_front (skb ∷ l) e = ground (arith, e)

same-ok {ℓ} : {A : Type ℓ} {x y : A} → ok x ≡ ok y → x ≡ y
same-ok h = cc

-- What holds of every state of a run.
pub record IsUp (other : ℕ → ℕ) (slack : ℕ) (s : State) : Type 0 where
  pub well : IsWell s.interface s.packets other slack
  pub port_up : s.interface.port_up ≡ true

-- From a well-formed interface whose port is up, every step keeps it so; and the queue with what
-- arrives is what the step takes and then the new queue.
pub step_lem :
    {max_tx_mtu : ℕ} {other : ℕ → ℕ} {slack : ℕ} (s s' : State)
    → IsUp other slack s
    → (next : Step max_tx_mtu s s')
    → IsUp other slack s'
      × ((skbs : List Packet) × CameIn next skbs × (queue s ++ skbs ≡ taken_by next ++ queue s'))
step_lem {other = other} {slack = slack} s s' up (interrupt index r e) =
    let (r', e', v) = interrupt_handler_lem s.mem index up.well up.port_up in
    let same : r' ≡ r = same-ok (sym e' ∙ e) in
    let keeps = subst (Keeps s.mem other slack s.interface) same v.keeps in
    (
      record { well = keeps.well; port_up = keeps.port_up ∙ up.port_up },
      (keeps.received.0, keeps.received.2, sym keeps.received.1),
    )
step_lem {max_tx_mtu} {other} {slack} s s' up
      (send rank tx_ring csum_start csum_offset skb ring a low fits small csum at e) =
    let (a', e', well, same_port, same_rx, _) =
      xmit_lem max_tx_mtu rank tx_ring csum_start csum_offset skb s.mem up.well low small fits csum
        at in
    let same : a' ≡ a = same-ok (sym e' ∙ e) in
    (
      record {
        well = subst (λ (z : After). IsWell z.interface z.packets other slack) same well;
        port_up =
            subst (λ (z : After). z.interface.port_up ≡ s.interface.port_up) same same_port
            ∙ up.port_up;
      },
      (
        [],
        refl,
        append-nil (queue s)
            ∙ sym (
                ap (λ (z : RxQueue). z.pkt_rx_queue)
                  (subst (λ (z : After). z.interface.rx ≡ s.interface.rx) same same_rx)),
      ),
    )
step_lem s s' up receive = (
  record { well = received-IsWell up.well (recv_nowait s.interface.rx).1; port_up = up.port_up },
  ([], refl, append-nil (queue s) ∙ popped s.interface.rx),
)
step_lem s s' up (device cqs eqs mem d) = (
  record { well = Reports-IsWell up.well cqs eqs d; port_up = up.port_up },
  ([], refl, append-nil (queue s)),
)

-- Two runs of a queue, one after the other.
in_turn :
    (l m n a b t u : List Packet)
    → l ++ a ≡ t ++ m
    → m ++ b ≡ u ++ n
    → l ++ (a ++ b) ≡ (t ++ u) ++ n
in_turn l m n a b t u e f =
    sym (append_assoc l a b)
    ∙ ap (λ z. z ++ b) e
    ∙ append_assoc t m b
    ∙ ap (λ z. t ++ z) f
    ∙ sym (append_assoc t u n)

pub run_lem :
    {max_tx_mtu : ℕ} {other : ℕ → ℕ} {slack : ℕ} (s s' : State)
    → IsUp other slack s
    → (run : Run max_tx_mtu s s')
    → IsUp other slack s'
      × ((skbs : List Packet) × CameDuring s' run skbs × (queue s ++ skbs ≡ taken run ++ queue s'))
run_lem s s' up start = (up, ([], at_start, append-nil (queue s)))
run_lem s _ up (step m s' run next) =
    let (up', (skbs, came, e)) = run_lem s m up run in
    let (up'', (more, last, f)) = step_lem m s' up' next in
    (
      up'',
      (
        skbs ++ more,
        one_step skbs more came last,
        in_turn (queue s) (queue m) (queue s') skbs more (taken run) (taken_by next) e f,
      ),
    )

-- In every state of such a run an interrupt raises nothing, empties and re-arms its EQs and
-- empties the CQs that they announce, and a packet that is small enough, with a rank below 2 ^ 29,
-- on a ring that is there, raises nothing: it is sent, with its rank in the doorbell, or waits for a
-- ring that is full.
pub no_raise :
    {max_tx_mtu : ℕ} {other : ℕ → ℕ} {slack : ℕ} (s s' : State) (index rank : ℕ)
    (tx_ring csum_start csum_offset : Option ℕ) (skb : List ℕ) (ring : Txq)
    → IsUp other slack s
    → Run max_tx_mtu s s'
    → rank < 2 ^ 29
    → length skb + 10 ≤ pkt_buf_size
    → length skb < max_tx_mtu
    → csum_command csum_start csum_offset < 2 ^ 16
    → ring_of tx_ring s'.interface.txqs ≡ ok ring
    → ((r : Changed) × (interrupt_handler s'.mem index s'.interface s'.packets ≡ ok r)
        × InterruptServed s'.mem other slack index s'.interface r)
      × ((a : After) × (xmit max_tx_mtu rank tx_ring csum_start csum_offset skb s'.interface
              s'.packets s'.mem
            ≡ ok a)
          × Came s'.interface ring (place_of tx_ring) rank skb a)
no_raise {max_tx_mtu} s s' index rank tx_ring csum_start csum_offset skb ring up run low fits small
      csum at =
    let u = (run_lem s s' up run).0 in
    let (a, e, _, _, _, came) =
      xmit_lem max_tx_mtu rank tx_ring csum_start csum_offset skb s'.mem u.well low small fits csum
        at in
    (interrupt_handler_lem s'.mem index u.well u.port_up, (a, e, came))
