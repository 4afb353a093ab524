-- ===== src/Txq/Complete.antt =====
-- `Txq.process_tx_cq`: completions free their slots, and the consumer pointer moves over the slots
-- that are free.
use schedra_nic.Prelude.{List, ℕ, ◌+◌, ◌-◌, ◌≤◌, ◌<◌, ◌≡◌, refl, arith, true, false, none, set}
use schedra_nic.Device.{ok, Write}
use schedra_nic.Packets.{Packets}
use schedra_nic.Packets.Ownership.{Owns, available}
use schedra_nic.Ring.Occupancy.{occupied, occupied-set-none}
use schedra_nic.Ring.{Slots}
use schedra_nic.Ring.Slots.{holds, Advanced, advance_lem}
use schedra_nic.Drain.Phase.{empty_within_round}
use schedra_nic.Drain.Rounds.{drain_lem}
use schedra_nic.Cq.{Cq, write_cons_ptr, completed_index}
use schedra_nic.Cq.Freed.{Freed, nothing-Freed, one_more-Freed}
use schedra_nic.Cq.Completion.{IsCq, is_old, Answers, Pending, free_completed}
use schedra_nic.Txq.{Txq, complete, Processed, process_tx_cq_up}
use schedra_nic.Txq.Transmit.{IsOpen}

-- What the handler has done: it has consumed the completions up to the first old one, at most one
-- round of the CQ; the slot of each of these is empty, no other slot has changed, and one packet
-- buffer more is available for each; the queue is still well formed and every packet buffer in one place, as many as
-- before; the
-- consumer pointer has passed free slots only, and stands at the producer's or at a slot that still
-- holds a packet; waiting senders are woken; the writes publish the CQ's consumer pointer.
pub record Completed (q : Cq) (t : Txq) (packets : Packets) (other : ℕ → ℕ) (r : Processed)
    : Type 0 where
  pub still_open : IsOpen r.txq
  pub owns : Owns r.packets (λ j. other j + holds r.txq.tx_info j)
  pub buffers :
      available r.packets + occupied r.txq.tx_info ≡ available packets + occupied t.tx_info
  pub size : r.txq.size ≡ t.size
  pub prod_ptr : r.txq.prod_ptr ≡ t.prod_ptr
  pub advanced : Advanced t.log_queue_size r.txq.tx_info t.prod_ptr t.cons_ptr r.txq.cons_ptr
  pub woken : r.txq.clean_event ≡ true
  pub same_cq : r.cq ≡ record q { cons_ptr = r.cq.cons_ptr }
  pub forward : q.cons_ptr ≤ r.cq.cons_ptr
  pub one_round : r.cq.cons_ptr ≤ q.cons_ptr + q.size
  pub at_old : is_old q r.cq.cons_ptr ≡ true
  pub freed : Freed q t.size_mask q.cons_ptr t.tx_info r.cq.cons_ptr r.txq.tx_info
  pub more_buffers : available r.packets + q.cons_ptr ≡ available packets + r.cq.cons_ptr
  pub consumed : (i : ℕ) → q.cons_ptr ≤ i → i < r.cq.cons_ptr → is_old q i ≡ false
  pub writes : write_cons_ptr r.cq ≡ ok r.writes

-- The loop's state at a pointer, started with `stock` buffers available.
record Mid (q : Cq) (t : Txq) (total stock : ℕ) (other : ℕ → ℕ) (c : ℕ) (s : Slots × Packets)
    : Type 0 where
  pending : Pending q t.log_queue_size t.size_mask t.prod_ptr t.cons_ptr total other c s
  freed : Freed q t.size_mask q.cons_ptr t.tx_info c s.0
  more : available s.1 + q.cons_ptr ≡ stock + c

consume :
    (q : Cq) (t : Txq) {total stock : ℕ} {other : ℕ → ℕ} (c : ℕ) (s : Slots × Packets)
    → Mid q t total stock other c s
    → is_old q c ≡ false
    → (s' : Slots × Packets) × (complete q t.size_mask c s ≡ ok s')
      × Mid q t total stock other (c + 1) s'
unfolding complete
consume q t c (info, packets) m new =
    let (pkt, packets', e, f, p') =
      free_completed q t.log_queue_size t.size_mask t.prod_ptr t.cons_ptr c info packets m.pending
        new in
    (
      (set info (completed_index q t.size_mask c) none, packets'),
      f,
      record {
        pending = p';
        freed = one_more-Freed q t.size_mask q.cons_ptr t.tx_info c info e m.freed;
        more = omega (
          arith,
          m.more,
          m.pending.buffers,
          p'.buffers,
          occupied-set-none info (completed_index q t.size_mask c) pkt e,
        );
      },
    )

module _ {q : Cq} {t : Txq} (o : IsOpen t) (v : IsCq q) where
  -- An open queue whose new completions answer what it has outstanding: the handler ends, raises
  -- nothing, and has done what `Completed` says.
  pub process_tx_cq_lem :
      {other : ℕ → ℕ} {packets : Packets}
      → Owns packets (λ j. other j + holds t.tx_info j)
      → Answers q t.log_queue_size t.size_mask t.prod_ptr t.cons_ptr q.cons_ptr t.tx_info
      → (r : Processed) × (process_tx_cq_up q t packets ≡ ok r) × Completed q t packets other r
  unfolding process_tx_cq_up
  process_tx_cq_lem {other} {packets} owns answers =
      let (n, le, e) =
        empty_within_round q.buf q.log_size q.size q.size_mask q.stride v.size v.size_mask
          q.cons_ptr in
      let (c, s, d, bound, drained) =
        drain_lem (Mid q t (available packets + occupied t.tx_info) (available packets) other)
          (is_old q) (complete q t.size_mask) (consume q t) q.size n q.cons_ptr (t.tx_info, packets)
          e le
          (record {
            pending = record { ring = o.ring; owns = owns; answers = answers; buffers = refl };
            freed = nothing-Freed q t.size_mask q.cons_ptr t.tx_info;
            more = refl;
          }) in
      let m = drained.holds_at_end in
      let p = m.pending in
      let (at, a, advanced) =
        advance_lem t.cons_ptr (t.prod_ptr - t.cons_ptr) t.size_mask p.ring
          (omega (arith, o.ring.order)) o.size_mask in
      let (ws, w) = wrote c in
      (
        record {
          txq = record t { tx_info = s.0; cons_ptr = at; clean_event = true };
          cq = record q { cons_ptr = c };
          packets = s.1;
          writes = ws;
        },
        rw (d, w, a),
        record {
          still_open = record {
            size = o.size;
            size_mask = o.size_mask;
            full_size = o.full_size;
            block = o.block;
            stride = o.stride;
            ring = advanced.ring;
            window = o.window;
          };
          owns = p.owns;
          buffers = p.buffers;
          size = refl;
          prod_ptr = refl;
          advanced = advanced;
          woken = refl;
          same_cq = refl;
          forward = drained.forward;
          one_round = omega (arith, bound, le);
          at_old = drained.at_end;
          freed = m.freed;
          more_buffers = m.more;
          consumed = drained.consumed;
          writes = w;
        },
      )
    where
      wrote : (c : ℕ) → (ws : List Write) × (write_cons_ptr (record q { cons_ptr = c }) ≡ ok ws)
      wrote c = unfold write_cons_ptr in rw v.window.1 (_, refl)
