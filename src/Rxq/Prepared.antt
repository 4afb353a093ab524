-- ===== src/Rxq/Prepared.antt =====
-- What the rounds of `Rxq.refill_buffers` put into the ring: buffers, and the descriptors that name
-- them to the device.
use schedra_nic.Prelude.{
  ℕ, ◌+◌, ◌*◌, ◌^◌, ◌%◌, ◌≤◌, ◌<◌, ◌≡◌, ◌≢◌, refl, true, sym, subst, ◌∙◌, none, some, set,
  get_elem?, arith, ℕ_discrete, get_elem?-set_ne, get_elem?-set_here,
}
use schedra_nic.Device.{ok}
use schedra_nic.Regs.{mqnic_desc_size}
use schedra_nic.Packets.{pkt_buf_size}
use schedra_nic.Struct.{Bytes, peek, word}
use schedra_nic.Struct.Bytes.{Apart}
use schedra_nic.Desc.{write_rx_desc}
use schedra_nic.Desc.Gather.{gather, write_rx_desc_lem}
use schedra_nic.Desc.Blocks.{gather_agrees, blocks-Apart}
use schedra_nic.Ring.Window.{mod-ne_of_window}
use schedra_nic.Rxq.{Rxq}

-- The descriptor at a pointer is ready for a packet: its slot holds a buffer, and the device,
-- whatever is in memory, reads through the block of the slot exactly the whole buffer.
pub record Prepared (t : Rxq) (p : ℕ) : Type 0 where
  pub pkt : ℕ
  pub slot : get_elem? t.rx_info (p % 2 ^ t.log_queue_size) ≡ some (some pkt)
  pub dma :
      (mem : Bytes)
      → gather mem t.buf (p % 2 ^ t.log_queue_size * t.stride) 0 t.desc_block_size
        ≡ peek mem pkt pkt_buf_size

pub enabled-Prepared : {t : Rxq} {p : ℕ} → Prepared t p → Prepared (record t { enabled = true }) p
enabled-Prepared v = record { pkt = v.pkt; slot = v.slot; dma = v.dma }

-- Every descriptor from one producer pointer up to the other is prepared, and the rest of the queue
-- is left alone: its other fields, the other slots, and the words outside of the blocks.
pub record Fills (t r : Rxq) : Type 0 where
  pub same : r ≡ record t { rx_info = r.rx_info; buf = r.buf; prod_ptr = r.prod_ptr }
  pub prepared : (p : ℕ) → t.prod_ptr ≤ p → p < r.prod_ptr → Prepared r p
  pub slots_kept :
      (j : ℕ)
      → ((p : ℕ) → t.prod_ptr ≤ p → p < r.prod_ptr → p % 2 ^ t.log_queue_size ≢ j)
      → get_elem? r.rx_info j ≡ get_elem? t.rx_info j
  pub words_kept :
      (b w : ℕ)
      → ((p : ℕ)
          → t.prod_ptr ≤ p
          → p < r.prod_ptr
          → Apart (p % 2 ^ t.log_queue_size * t.stride) t.stride b w)
      → word r.buf b w ≡ word t.buf b w

pub no_round-Fills : (t : Rxq) → Fills t t
no_round-Fills t = record {
  same = refl;
  prepared = λ p l u. absurd (omega arith);
  slots_kept = λ j other. refl;
  words_kept = λ b w apart. refl;
}

-- The queue after one round.
abbrev pub after_round : Rxq → (pkt : ℕ) → Bytes → Rxq
after_round t pkt buf = record t {
  rx_info = set t.rx_info (t.prod_ptr % 2 ^ t.log_queue_size) (some pkt);
  buf = buf;
  prod_ptr = t.prod_ptr + 1;
}

module _ (t : Rxq) (pkt : ℕ) {buf : Bytes} (block : 0 < t.desc_block_size)
    (stride : t.stride ≡ mqnic_desc_size * t.desc_block_size)
    (vacant : get_elem? t.rx_info (t.prod_ptr % 2 ^ t.log_queue_size) ≡ some none)
    (written : write_rx_desc t.desc_block_size
        (t.prod_ptr % 2 ^ t.log_queue_size * t.stride)
        pkt
        pkt_buf_size
        t.buf
      ≡ ok buf)
    {r : Rxq} (rest : Fills (after_round t pkt buf) r) (forward : t.prod_ptr < r.prod_ptr)
    (window : r.prod_ptr ≤ t.prod_ptr + 2 ^ t.log_queue_size) where
  -- The later rounds take other slots.
  others :
      (p : ℕ)
      → t.prod_ptr + 1 ≤ p
      → p < r.prod_ptr
      → t.prod_ptr % 2 ^ t.log_queue_size ≢ p % 2 ^ t.log_queue_size
  others p l u = mod-ne_of_window (2 ^ t.log_queue_size) t.prod_ptr p (omega arith) (omega arith)

  -- The buffer of the round stays where it is.
  here_kept :
      Prepared (record t { rx_info = r.rx_info; buf = r.buf; prod_ptr = r.prod_ptr }) t.prod_ptr
  here_kept = record {
    pkt = pkt;
    slot =
        rest.slots_kept (t.prod_ptr % 2 ^ t.log_queue_size) (λ p l u e. others p l u (sym e))
        ∙ get_elem?-set_here t.rx_info (t.prod_ptr % 2 ^ t.log_queue_size) (some pkt) vacant;
    dma = λ mem.
        gather_agrees mem buf r.buf (t.prod_ptr % 2 ^ t.log_queue_size * t.stride) 0
          t.desc_block_size
          (λ b w l u. rest.words_kept b w (λ p m v.
            blocks-Apart t.stride (t.prod_ptr % 2 ^ t.log_queue_size) (p % 2 ^ t.log_queue_size) b w
              (others p m v) (omega arith) (omega (arith, stride))))
        ∙ (write_rx_desc_lem mem t.desc_block_size (t.prod_ptr % 2 ^ t.log_queue_size * t.stride)
            pkt pkt_buf_size t.buf block written).0;
  }

  -- A round and then the others.
  pub round-Fills : Fills t r
  round-Fills = record {
    same = rest.same;
    prepared = λ p l u. elim (ℕ_discrete p t.prod_ptr) [
      | yes e ↦
          subst (Prepared r) (sym e) (subst (λ z. Prepared z t.prod_ptr) (sym rest.same) here_kept)
      | no ne ↦ rest.prepared p (omega arith) u
    ];
    slots_kept = λ j other.
        rest.slots_kept j (λ p l u. other p (omega arith) u)
        ∙ get_elem?-set_ne t.rx_info (some pkt) (other t.prod_ptr (omega arith) forward);
    words_kept = λ b w apart.
        rest.words_kept b w (λ p l u. apart p (omega arith) u)
        ∙ (write_rx_desc_lem t.buf t.desc_block_size (t.prod_ptr % 2 ^ t.log_queue_size * t.stride)
              pkt pkt_buf_size t.buf block written).1
            b w
            (subst (λ n. Apart (t.prod_ptr % 2 ^ t.log_queue_size * t.stride) n b w)
              (omega (arith, stride)) (apart t.prod_ptr (omega arith) forward));
  }
