-- ===== src/Rxq/Receive.antt =====
-- `Rxq.process_rx_cq`: each new completion delivers the packet of its slot, in order.
use mathlib.Core.List.{append-nil, append_assoc}
use schedra_nic.Prelude.{
  ℕ, ◌+◌, ◌-◌, ◌≤◌, ◌<◌, ◌≡◌, ◌⊎◌, inl, inr, refl, ap, ◌∙◌, sym, List, [], ◌∷◌, ◌++◌, none, some,
  arith, subst, true, false, get_elem?, set, min,
}
use schedra_nic.Device.{ok, Write}
use schedra_nic.Packets.{Packets, pkt_buf_size}
use schedra_nic.Packets.Ownership.{Owns, available}
use schedra_nic.Struct.{Bytes, peek}
use schedra_nic.Ring.{Slots}
use schedra_nic.Ring.Occupancy.{occupied, occupied_le}
use schedra_nic.Ring.Slots.{holds, Advanced, advance_lem, slot_at-some}
use schedra_nic.Drain.Phase.{empty_within_round}
use schedra_nic.Drain.Rounds.{drain_lem}
use schedra_nic.Cq.{Cq, write_cons_ptr, completed_index}
use schedra_nic.Cq.Freed.{Freed, nothing-Freed, one_more-Freed}
use schedra_nic.Cq.Completion.{
  IsCq, is_old, AllNew, Answers, Pending, free_completed, extend, new_here, others_kept,
}
use schedra_nic.Rxq.{
  Rxq, Packet, RxQueue, push_packet, cpl_field, packet_of, Receiving, receive, Processed,
  process_rx_cq_up,
}
use schedra_nic.Rxq.Refill.{IsOpen, Topped, missing_lem, refill_buffers_lem}

-- The packet that the completion at a pointer announces, from the slots as the handler found them.
pub record Announces (mem : Bytes) (q : Cq) (t : Rxq) (c : ℕ) (skb : Packet) : Type 0 where
  pub pkt : ℕ
  pub slot : get_elem? t.rx_info (completed_index q t.size_mask c) ≡ some (some pkt)
  pub payload : skb.payload ≡ peek mem pkt (min (cpl_field q c 4 2) pkt_buf_size)
  pub queue : skb.queue ≡ t.index
  pub timestamp_ns : skb.timestamp_ns ≡ cpl_field q c 8 4
  pub timestamp_s : skb.timestamp_s ≡ cpl_field q c 12 2
  pub rx_checksum : skb.rx_checksum ≡ cpl_field q c 14 2

-- The packets announced by the completions from one pointer up to another, in their order.
pub data Delivered (mem : Bytes) (q : Cq) (t : Rxq) (from : ℕ) : ℕ → List Packet → Type 0 where
  none_yet : Delivered mem q t from from []
  one_more :
      {c : ℕ} {skbs : List Packet} (d : ℕ) (skb : Packet)
      → d ≡ c + 1
      → Delivered mem q t from c skbs
      → Announces mem q t c skb
      → Delivered mem q t from d (skbs ++ skb ∷ [])

-- The loop's state at a pointer, started with `before` in the interface's queue.
record Mid (mem : Bytes) (q : Cq) (t : Rxq) (total : ℕ) (other : ℕ → ℕ) (before : RxQueue) (c : ℕ)
    (s : Receiving) : Type 0 where
  pending : Pending q t.log_queue_size t.size_mask t.prod_ptr t.cons_ptr total other c (s.0, s.1)
  unread :
      (d : ℕ)
      → c ≤ d
      → AllNew q c d
      → get_elem? s.0 (completed_index q t.size_mask d)
        ≡ get_elem? t.rx_info (completed_index q t.size_mask d)
  skbs : List Packet
  queued : s.2.pkt_rx_queue ≡ before.pkt_rx_queue ++ skbs
  freed : Freed q t.size_mask q.cons_ptr t.rx_info c s.0
  signalled : (skbs ≡ []) ⊎ (s.2.pkt_rx_sync ≡ true)
  delivered : Delivered mem q t q.cons_ptr c skbs

receive_step :
    (mem : Bytes) (q : Cq) (t : Rxq) {total : ℕ} {other : ℕ → ℕ} {before : RxQueue} (c : ℕ)
    (s : Receiving)
    → Mid mem q t total other before c s
    → is_old q c ≡ false
    → (s' : Receiving) × (receive mem q t c s ≡ ok s') × Mid mem q t total other before (c + 1) s'
unfolding receive packet_of
receive_step mem q t {other} {before} c (info, packets, rx) m new =
    let (pkt, packets', e, f, p') =
      free_completed q t.log_queue_size t.size_mask t.prod_ptr t.cons_ptr c info packets m.pending
        new in
    let skb : Packet = record {
      payload = peek mem pkt (min (cpl_field q c 4 2) pkt_buf_size);
      queue = t.index;
      timestamp_ns = cpl_field q c 8 4;
      timestamp_s = cpl_field q c 12 2;
      rx_checksum = cpl_field q c 14 2;
    } in
    (
      (set info (completed_index q t.size_mask c) none, packets', push_packet skb rx),
      rw (slot_at-some info (completed_index q t.size_mask c) e, f) refl,
      record {
        pending = p';
        unread = λ d l all.
            others_kept q t.log_queue_size t.size_mask t.prod_ptr t.cons_ptr new m.pending.answers d
              l all
            ∙ m.unread d (omega arith) (extend q new all);
        skbs = m.skbs ++ skb ∷ [];
        queued =
            ap (λ l. l ++ skb ∷ []) m.queued ∙ append_assoc before.pkt_rx_queue m.skbs (skb ∷ []);
        freed = one_more-Freed q t.size_mask q.cons_ptr t.rx_info c info e m.freed;
        signalled = inr refl;
        delivered = one_more (c + 1) skb refl m.delivered (record {
          pkt = pkt;
          slot = sym (m.unread c (omega arith) (new_here q new)) ∙ e;
          payload = refl;
          queue = refl;
          timestamp_ns = refl;
          timestamp_s = refl;
          rx_checksum = refl;
        });
      },
    )

-- What the handler has done: it has consumed the completions up to the first old one, at most one
-- round of the CQ, and appended exactly the packets that they announce to the interface's queue, in
-- order, with `pkt_rx_sync` set if there is one; it has emptied their slots and no other, moved the
-- consumer pointer over empty slots, and topped the ring up as `Topped` says; its writes publish the
-- consumer pointer of the CQ and then what the refill publishes; and the queue is well formed, with
-- every packet buffer in one place, as many as before.
pub record Received (mem : Bytes) (q : Cq) (t : Rxq) (packets : Packets) (other : ℕ → ℕ)
    (before : RxQueue) (r : Processed) : Type 0 where
  pub still_open : IsOpen r.rxq
  pub owns : Owns r.packets (λ j. other j + holds r.rxq.rx_info j)
  pub buffers :
      available r.packets + occupied r.rxq.rx_info ≡ available packets + occupied t.rx_info
  pub size : r.rxq.size ≡ t.size
  pub same_cq : r.cq ≡ record q { cons_ptr = r.cq.cons_ptr }
  pub forward : q.cons_ptr ≤ r.cq.cons_ptr
  pub one_round : r.cq.cons_ptr ≤ q.cons_ptr + q.size
  pub at_old : is_old q r.cq.cons_ptr ≡ true
  pub consumed : (i : ℕ) → q.cons_ptr ≤ i → i < r.cq.cons_ptr → is_old q i ≡ false
  pub skbs : List Packet
  pub queued : r.rx.pkt_rx_queue ≡ before.pkt_rx_queue ++ skbs
  pub signalled : (skbs ≡ []) ⊎ (r.rx.pkt_rx_sync ≡ true)
  pub delivered : Delivered mem q t q.cons_ptr r.cq.cons_ptr skbs
  pub info : Slots
  pub left : Packets
  pub cq_writes : List Write
  pub rx_writes : List Write
  pub freed : Freed q t.size_mask q.cons_ptr t.rx_info r.cq.cons_ptr info
  pub advanced : Advanced t.log_queue_size info t.prod_ptr t.cons_ptr r.rxq.cons_ptr
  pub topped :
      Topped
        (record t { rx_info = info; cons_ptr = r.rxq.cons_ptr })
        left
        other
        (r.rxq, r.packets, rx_writes)
  pub published : write_cons_ptr r.cq ≡ ok cq_writes
  pub writes : r.writes ≡ cq_writes ++ rx_writes

module _ {q : Cq} {t : Rxq} (o : IsOpen t) (v : IsCq q) where
  -- An open queue whose new completions answer what it has outstanding, while the packet buffers
  -- available and those in its slots are enough for the ring: the handler ends, raises nothing, and has done what `Received` says.
  pub process_rx_cq_lem :
      (mem : Bytes) {other : ℕ → ℕ} {packets : Packets} (before : RxQueue)
      → Owns packets (λ j. other j + holds t.rx_info j)
      → Answers q t.log_queue_size t.size_mask t.prod_ptr t.cons_ptr q.cons_ptr t.rx_info
      → t.size ≤ available packets + occupied t.rx_info
      → (r : Processed) × (process_rx_cq_up mem q t packets before ≡ ok r)
        × Received mem q t packets other before r
  unfolding process_rx_cq_up
  process_rx_cq_lem mem {other} {packets} before owns answers buffers =
      let (n, le, e) =
        empty_within_round q.buf q.log_size q.size q.size_mask q.stride v.size v.size_mask
          q.cons_ptr in
      let (c, s, d, bound, drained) =
        drain_lem (Mid mem q t (available packets + occupied t.rx_info) other before) (is_old q)
          (receive mem q t) (receive_step mem q t) q.size n q.cons_ptr (t.rx_info, packets, before)
          e le
          (record {
            pending = record { ring = o.ring; owns = owns; answers = answers; buffers = refl };
            unread = λ _ _ _. refl;
            skbs = [];
            queued = sym (append-nil before.pkt_rx_queue);
            freed = nothing-Freed q t.size_mask q.cons_ptr t.rx_info;
            signalled = inl refl;
            delivered = none_yet;
          }) in
      let m = drained.holds_at_end in
      let p = m.pending in
      let (at, a, advanced) =
        advance_lem t.cons_ptr (t.prod_ptr - t.cons_ptr) t.size_mask p.ring
          (omega (arith, o.ring.order)) o.size_mask in
      let (ws, w) = wrote c in
      let t' : Rxq = record t { rx_info = s.0; cons_ptr = at } in
      let (r, f, topped) =
        refill_buffers_lem {t = t'} {packets = s.1} {other = other} (reopened advanced) p.owns
          (omega (arith, p.buffers, occupied_le advanced.ring, missing_lem t')) in
      let same_cons : at ≡ r.0.cons_ptr = sym topped.cons_ptr in
      (
        record {
          rxq = r.0;
          cq = record q { cons_ptr = c };
          packets = r.1;
          rx = s.2;
          writes = ws ++ r.2;
        },
        rw (d, w, a, f) refl,
        record {
          still_open = topped.still_open;
          owns = topped.owns;
          buffers = topped.buffers ∙ p.buffers;
          size = topped.size;
          same_cq = refl;
          forward = drained.forward;
          one_round = omega (arith, bound, le);
          at_old = drained.at_end;
          consumed = drained.consumed;
          skbs = m.skbs;
          queued = m.queued;
          signalled = m.signalled;
          delivered = m.delivered;
          info = s.0;
          left = s.1;
          cq_writes = ws;
          rx_writes = r.2;
          freed = m.freed;
          advanced = subst (Advanced t.log_queue_size s.0 t.prod_ptr t.cons_ptr) same_cons advanced;
          topped =
              subst (λ z. Topped (record t { rx_info = s.0; cons_ptr = z }) s.1 other r) same_cons
                topped;
          published = w;
          writes = refl;
        },
      )
    where
      wrote : (c : ℕ) → (ws : List Write) × (write_cons_ptr (record q { cons_ptr = c }) ≡ ok ws)
      wrote c = unfold write_cons_ptr in rw v.window.1 (_, refl)

      reopened :
          {info : Slots} {at : ℕ}
          → Advanced t.log_queue_size info t.prod_ptr t.cons_ptr at
          → IsOpen (record t { rx_info = info; cons_ptr = at })
      reopened advanced = record {
        size = o.size;
        size_mask = o.size_mask;
        full_size = o.full_size;
        block = o.block;
        stride = o.stride;
        ring = advanced.ring;
        window = o.window;
      }
