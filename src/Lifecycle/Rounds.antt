-- ===== src/Lifecycle/Rounds.antt =====
-- The loops of `Interface.open`: what each round leaves.
use schedra_nic.Prelude.{
  ℕ, zero, suc, ◌+◌, ◌≤◌, ◌<◌, ◌≡◌, inl, inr, refl, true, List, [], ◌∷◌, ◌++◌, some, arith, length,
  set-append_new, range_from,
}
use schedra_nic.Device.{ok, Write}
use schedra_nic.Resource.Stock.{Stocked-le, alloc-Stocked}
use schedra_nic.Packets.{Packets, alloc_region}
use schedra_nic.Packets.Ownership.{region-Owns, Owns-agree}
use schedra_nic.Cq.{Cq, process_tx_cq, process_rx_cq}
use schedra_nic.Txq
use schedra_nic.Txq.{Txq}
use schedra_nic.Txq.Open.{open_txq_lem}
use schedra_nic.Rxq
use schedra_nic.Rxq.{Rxq}
use schedra_nic.Rxq.Prepared.{Prepared, enabled-Prepared}
use schedra_nic.Rxq.Open.{open_rxq_lem}
use schedra_nic.Interface.{Interface, Changed}
use schedra_nic.Lifecycle.{open_one_rx, open_one_tx, open_rxqs, open_txqs}
use schedra_nic.Lifecycle.Added.{tx_added-IsWell, rx_added-IsWell, slack_left}
use schedra_nic.Lifecycle.Opening.{
  Opening, RxReady, TxReady, rx_enabled, tx_enabled, enabled-Rxq, enabled-Txq, with_ring, rx_size,
  tx_size, length-append_one, append_new-From,
}
use schedra_nic.Lifecycle.OpenCq.{open_one_cq_lem}

-- A round of the first loop.
open_one_rx_lem :
    (k rx tx : ℕ) {i : Interface} {packets : Packets} {writes : List Write} {other : ℕ → ℕ}
    {slack rx0 tx0 rxqs txqs : ℕ}
    → Opening other slack rx0 tx0 rxqs txqs (suc rx) tx (i, packets, writes)
    → (s : Changed) × (open_one_rx k (i, packets, writes) ≡ ok s)
      × Opening other slack rx0 tx0 rxqs txqs rx tx s
unfolding open_one_rx
open_one_rx_lem k rx tx {i} {packets} {writes} {other} {slack} {rx0} {tx0} {rxqs} {txqs} op =
    let (q, eqs, cq_res, ws, e, new) =
      open_one_cq_lem k (rx + tx) i packets writes op.some_eq op.well.eq_open op.numbered
        (Stocked-le (omega arith) op.cq_left) in
    let (owns, one) = region-Owns op.well.owns in
    let (index, res', a, rest) = alloc-Stocked op.rx_left in
    let (cqn, has_cqn) = new.cqn in
    let (o, f, opens) =
      open_rxq_lem (length i.rxqs) (length i.cqs) 8192 4 {cq = q} Rxq.new index cqn refl
        op.rx_left.valid a (omega arith) (omega arith) has_cqn owns
        (omega (arith, rx_size, one, slack_left op.well)) in
    let (enabled, g) = rx_enabled opens.open_queue in
    let full : o.rxq.prod_ptr ≡ o.rxq.cons_ptr + o.rxq.size = elim opens.filling [
      | inl (few, _) ↦ omega (arith, opens.rounded, rx_size)
      | inr (_, full) ↦ omega (arith, opens.start)
    ] in
    let q' : Cq = record q { src_ring = some (length i.rxqs); handler = some process_rx_cq } in
    let rxq : Rxq = record o.rxq { enabled = true } in
    let prepared : (p : ℕ) → rxq.cons_ptr ≤ p → p < rxq.prod_ptr → Prepared rxq p =
      λ p l u. enabled-Prepared (opens.prepared p u) in
    (
      (
        record i {
          eqs = eqs;
          cqs = i.cqs ++ q' ∷ [];
          cq_res = cq_res;
          rxqs = i.rxqs ++ rxq ∷ [];
          rxq_res = o.rxq_res;
        },
        o.packets,
        ws ++ o.writes ++ enabled,
      ),
      rw (e, f, g, opens.source, set-append_new i.cqs q q') refl,
      record {
        well =
            rx_added-IsWell eqs q' op.well (with_ring (length i.rxqs) process_rx_cq new.is_open)
              new.idle (new.eqs_well q') rxq cq_res o.rxq_res refl refl
              (enabled-Rxq opens.open_queue) opens.owns
              (omega (arith, op.well.enough, one, opens.buffers, opens.rounded, rx_size));
        some_eq = omega (arith, new.how_many, op.some_eq);
        numbered = new.numbered;
        cq_left = new.stocked;
        rx_left = record {
          valid = opens.resource;
          free = omega (arith, op.rx_left.free, opens.one_index);
        };
        tx_left = op.tx_left;
        rx_ready = append_new-From RxReady rx0 i.rxqs rxq op.rx_ready (refl, full, prepared);
        tx_ready = op.tx_ready;
        rx_made = omega (arith, op.rx_made, length-append_one i.rxqs rxq);
        tx_made = op.tx_made;
      },
    )

-- A round of the second loop.
open_one_tx_lem :
    (k tx : ℕ) {i : Interface} {packets : Packets} {writes : List Write} {other : ℕ → ℕ}
    {slack rx0 tx0 rxqs txqs : ℕ}
    → Opening other slack rx0 tx0 rxqs txqs 0 (suc tx) (i, packets, writes)
    → (s : Changed) × (open_one_tx k (i, packets, writes) ≡ ok s)
      × Opening other slack rx0 tx0 rxqs txqs 0 tx s
unfolding open_one_tx
open_one_tx_lem k tx {i} {packets} {writes} {other} {slack} {rx0} {tx0} {rxqs} {txqs} op =
    let (q, eqs, cq_res, ws, e, new) =
      open_one_cq_lem k tx i packets writes op.some_eq op.well.eq_open op.numbered
        (Stocked-le (omega arith) op.cq_left) in
    let (owns, one) = region-Owns op.well.owns in
    let (index, res', a, rest) = alloc-Stocked op.tx_left in
    let (cqn, has_cqn) = new.cqn in
    let (o, f, opens) =
      open_txq_lem (length i.txqs) (length i.cqs) 512 4 (alloc_region packets.pool).1 {cq = q}
        Txq.new index cqn refl op.tx_left.valid a (omega arith) (omega arith) has_cqn in
    let (enabled, g) = tx_enabled opens.open_queue in
    let (owns', two) = region-Owns owns in
    let q' : Cq = record q { src_ring = some (length i.txqs); handler = some process_tx_cq } in
    let txq : Txq = record o.txq { enabled = true } in
    (
      (
        record i {
          eqs = eqs;
          cqs = i.cqs ++ q' ∷ [];
          cq_res = cq_res;
          txqs = i.txqs ++ txq ∷ [];
          txq_res = o.txq_res;
        },
        record packets { pool = (alloc_region (alloc_region packets.pool).1).1 },
        ws ++ o.writes ++ enabled,
      ),
      rw (e, f, g, opens.source, opens.one_region, set-append_new i.cqs q q') refl,
      record {
        well =
            tx_added-IsWell eqs q' op.well (with_ring (length i.txqs) process_tx_cq new.is_open)
              new.idle (new.eqs_well q') txq cq_res o.txq_res refl refl
              (enabled-Txq opens.open_queue)
              (Owns-agree (λ j. omega (arith, opens.no_buffer j)) owns')
              (omega (arith, op.well.enough, one, two, opens.rounded, tx_size));
        some_eq = omega (arith, new.how_many, op.some_eq);
        numbered = new.numbered;
        cq_left = Stocked-le (omega arith) new.stocked;
        rx_left = op.rx_left;
        tx_left = record {
          valid = opens.resource;
          free = omega (arith, op.tx_left.free, opens.one_index);
        };
        rx_ready = op.rx_ready;
        tx_ready = append_new-From TxReady tx0 i.txqs txq op.tx_ready (refl, opens.empty_ring);
        rx_made = op.rx_made;
        tx_made = omega (arith, op.tx_made, length-append_one i.txqs txq);
      },
    )

-- The loops.
pub open_rxqs_lem :
    (k rx tx : ℕ) (s : Changed) {other : ℕ → ℕ} {slack rx0 tx0 rxqs txqs : ℕ}
    → Opening other slack rx0 tx0 rxqs txqs rx tx s
    → (s' : Changed) × (open_rxqs (range_from k rx) s ≡ ok s')
      × Opening other slack rx0 tx0 rxqs txqs 0 tx s'
unfolding open_rxqs
open_rxqs_lem k zero tx s op = (s, refl, op)
open_rxqs_lem k (suc rx) tx s op =
    let (s', e, op') = open_one_rx_lem k rx tx op in
    let (s'', f, op'') = open_rxqs_lem (k + 1) rx tx s' op' in (s'', rw (e, f) refl, op'')

pub open_txqs_lem :
    (k tx : ℕ) (s : Changed) {other : ℕ → ℕ} {slack rx0 tx0 rxqs txqs : ℕ}
    → Opening other slack rx0 tx0 rxqs txqs 0 tx s
    → (s' : Changed) × (open_txqs (range_from k tx) s ≡ ok s')
      × Opening other slack rx0 tx0 rxqs txqs 0 0 s'
unfolding open_txqs
open_txqs_lem k zero s op = (s, refl, op)
open_txqs_lem k (suc tx) s op =
    let (s', e, op') = open_one_tx_lem k tx op in
    let (s'', f, op'') = open_txqs_lem (k + 1) tx s' op' in (s'', rw (e, f) refl, op'')
