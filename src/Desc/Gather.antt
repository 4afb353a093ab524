-- ===== src/Desc/Gather.antt =====
-- What the device reads through the descriptors of one block: the bytes of the packet, whole and in
-- order.
use mathlib.Core.List.{append-nil}
use native.Mathlib.Nat.{add-zero}
use schedra_nic.Prelude.{
  ℕ, zero, suc, ◌+◌, ◌-◌, ◌*◌, ◌≤◌, ◌<◌, ◌^◌, ◌≡◌, refl, ◌∙◌, ap, ap₂, sym, inl, inr, List, [], ◌∷◌,
  ◌++◌, arith, subst,
}
use schedra_nic.Device.{ok, >>=-eq-ok}
use schedra_nic.Regs.{mqnic_desc_size}
use schedra_nic.Struct.{Bytes, peek, word, pack_into}
use schedra_nic.Struct.Bytes.{Apart, peek-append, pack_into-Apart, pack_into_total}
use schedra_nic.Desc.{
  segment, segment_ptr, first_segment, write_segments, write_tx_desc, write_rx_desc,
}
use schedra_nic.Desc.Frame.{
  desc_csum, desc_len, desc_addr, plain_desc, csum_desc, write_segments-suc, write_segments_frame,
}

-- The bytes that one descriptor names.
abbrev pub fetch : Bytes → Bytes → ℕ → List ℕ
fetch mem buf at = peek mem (desc_addr buf at) (desc_len buf at)

-- The bytes that the descriptors k, k+1, ... of a block name, `rounds` of them.
abbrev pub gather : Bytes → Bytes → ℕ → ℕ → ℕ → List ℕ
gather mem buf base k zero = []
gather mem buf base k (suc rounds) =
    fetch mem buf (base + k * mqnic_desc_size) ++ gather mem buf base (k + 1) rounds

-- A descriptor of no bytes has the address 0, and names the same nothing.
peek-segment_ptr : (mem : Bytes) (seg at : ℕ) → peek mem (segment_ptr seg at) seg ≡ peek mem at seg
unfolding peek
peek-segment_ptr mem zero at = refl
peek-segment_ptr mem (suc seg) at =
    let e : segment_ptr (suc seg) at ≡ at = ground arith in ap (λ a. peek mem a (suc seg)) e

fetch_of_fields :
    (mem buf : Bytes) (at seg addr : ℕ)
    → desc_len buf at ≡ seg
    → desc_addr buf at ≡ segment_ptr seg addr
    → fetch mem buf at ≡ peek mem addr seg
fetch_of_fields mem buf at seg addr l a = ap₂ (peek mem) a l ∙ peek-segment_ptr mem seg addr

-- The first descriptor of the rounds left names the next segment.
fetch-segment :
    (mem : Bytes) (dbs base ptr length rounds k offset : ℕ) (buf : Bytes) {result : Bytes}
    → write_segments dbs base ptr length (suc rounds) k offset buf ≡ ok result
    → fetch mem result (base + k * mqnic_desc_size)
      ≡ peek mem (ptr + offset) (segment dbs k (length - offset))
fetch-segment mem dbs base ptr length rounds k offset buf {result} h =
    let seg : ℕ = segment dbs k (length - offset) in
    let (buf', p, rest) = write_segments-suc dbs base ptr length rounds k offset buf h in
    let (l, a) = plain_desc buf (base + k * 16) seg (segment_ptr seg (ptr + offset)) p in
    fetch_of_fields mem result (base + k * 16) seg (ptr + offset)
      (write_segments_frame dbs base ptr length rounds (k + 1) (offset + seg) buf'
          (base + k * 16 + 4) 4 rest (inl (omega arith))
        ∙ l)
      (write_segments_frame dbs base ptr length rounds (k + 1) (offset + seg) buf'
          (base + k * 16 + 8) 8 rest (inl (omega arith))
        ∙ a)

-- The segments from an offset on make up the packet's bytes from there on.
gather_segments :
    (mem : Bytes) (dbs base ptr length rounds k offset : ℕ) (buf : Bytes) {result : Bytes}
    → write_segments dbs base ptr length (suc rounds) k offset buf ≡ ok result
    → k + suc rounds ≡ dbs
    → offset ≤ length
    → gather mem result base k (suc rounds) ≡ peek mem (ptr + offset) (length - offset)
gather_segments mem dbs base ptr length zero k offset buf {result} h e le =
    append-nil _
    ∙ fetch-segment mem dbs base ptr length zero k offset buf h
    ∙ ap (peek mem (ptr + offset)) (ground arith)
gather_segments mem dbs base ptr length (suc rounds) k offset buf {result} h e le =
    let seg : ℕ = segment dbs k (length - offset) in
    let (buf', p, rest) = write_segments-suc dbs base ptr length (suc rounds) k offset buf h in
    let small : seg ≤ length - offset = ground arith in
    let split : seg + (length - (offset + seg)) ≡ length - offset = omega arith in
    let next : ptr + (offset + seg) ≡ ptr + offset + seg = omega arith in
    ap₂ ◌++◌ (fetch-segment mem dbs base ptr length (suc rounds) k offset buf h) (
      gather_segments mem dbs base ptr length rounds (k + 1) (offset + seg) buf' rest (omega arith)
        (omega arith)
      ∙ ap (λ a. peek mem a (length - (offset + seg))) next)
    ∙ sym (peek-append mem (ptr + offset) seg (length - (offset + seg)))
    ∙ ap (peek mem (ptr + offset)) split

write_tx_desc-parts :
    (dbs base csum ptr length : ℕ) (buf : Bytes) {result : Bytes}
    → write_tx_desc dbs base csum ptr length buf ≡ ok result
    → (buf' : Bytes) × (pack_into buf base (
          (2, 0)
          ∷ (2, csum)
          ∷ (4, first_segment dbs length)
          ∷ (8, segment_ptr (first_segment dbs length) ptr)
          ∷ [])
        ≡ ok buf')
      × (write_segments dbs base ptr length (dbs - 1) 1 (first_segment dbs length) buf' ≡ ok result)
unfolding write_tx_desc
write_tx_desc-parts dbs base csum ptr length buf h = >>=-eq-ok _ _ h

-- The descriptors behind the first of a transmit block.
gather_rest :
    (mem : Bytes) (dbs base ptr length : ℕ) (buf : Bytes) {result : Bytes}
    → write_segments (suc dbs) base ptr length dbs 1 (first_segment (suc dbs) length) buf
      ≡ ok result
    → gather mem result base 1 dbs
      ≡ peek mem (ptr + first_segment (suc dbs) length) (length - first_segment (suc dbs) length)
unfolding peek
gather_rest mem zero base ptr length buf h =
    let none_left : 0 ≡ length - length = omega arith in ap (peek mem (ptr + length)) none_left
gather_rest mem (suc dbs) base ptr length buf h =
    gather_segments mem (suc (suc dbs)) base ptr length dbs 1 (first_segment (suc (suc dbs)) length)
      buf h (omega arith) (ground arith)

-- When the descriptors of a transmit are written, the device reads through them exactly the bytes
-- of the packet in order, the first descriptor carries the checksum command, and no byte outside
-- the block has changed.
pub write_tx_desc_lem :
    (mem : Bytes) (dbs base csum ptr length : ℕ) (buf : Bytes) {result : Bytes}
    → 0 < dbs
    → write_tx_desc dbs base csum ptr length buf ≡ ok result
    → (gather mem result base 0 dbs ≡ peek mem ptr length)
      × (desc_csum result base ≡ csum)
      × ((b w : ℕ) → Apart base (dbs * mqnic_desc_size) b w → word result b w ≡ word buf b w)
write_tx_desc_lem mem zero base csum ptr length buf {result} pos h = elim pos [ ]
write_tx_desc_lem mem (suc dbs) base csum ptr length buf {result} pos h =
    let seg : ℕ = first_segment (suc dbs) length in
    let (buf', p, rest) = write_tx_desc-parts (suc dbs) base csum ptr length buf h in
    let rest : write_segments (suc dbs) base ptr length dbs 1 seg buf' ≡ ok result =
      subst (λ n. write_segments (suc dbs) base ptr length n 1 seg buf' ≡ ok result) less_one
        rest in
    let (c, l, a) = csum_desc buf base csum seg (segment_ptr seg ptr) p in
    let keep = λ (b w : ℕ) (apart : Apart (base + 1 * 16) (dbs * 16) b w).
      write_segments_frame (suc dbs) base ptr length dbs 1 seg buf' b w rest apart in
    let fits : seg ≤ length = ground arith in
    let split : seg + (length - seg) ≡ length = omega arith in
    (
      ap₂ ◌++◌
            (ap (fetch mem result) (add-zero base)
              ∙ fetch_of_fields mem result base seg ptr (keep (base + 4) 4 (inl (omega arith)) ∙ l)
                  (keep (base + 8) 8 (inl (omega arith)) ∙ a))
            (gather_rest mem dbs base ptr length buf' rest)
          ∙ sym (peek-append mem ptr seg (length - seg))
          ∙ ap (peek mem ptr) split,
      keep (base + 2) 2 (inl (omega arith)) ∙ c,
      λ b w apart. keep b w (behind b w apart) ∙ pack_into-Apart buf base _ b w p (first b w apart),
    )
  where
    less_one : suc dbs - 1 ≡ dbs
    less_one = omega arith

    behind : (b w : ℕ) → Apart base (suc dbs * 16) b w → Apart (base + 1 * 16) (dbs * 16) b w
    behind b w (inl l) = inl (omega arith)
    behind b w (inr r) = inr (omega arith)

    first : (b w : ℕ) → Apart base (suc dbs * 16) b w → Apart base 16 b w
    first b w (inl l) = inl l
    first b w (inr r) = inr (omega arith)

-- When the descriptors of a receive buffer are written, they name exactly the bytes of the buffer in
-- order, and no byte outside the block has changed.
pub write_rx_desc_lem :
    (mem : Bytes) (dbs base ptr length : ℕ) (buf : Bytes) {result : Bytes}
    → 0 < dbs
    → write_rx_desc dbs base ptr length buf ≡ ok result
    → (gather mem result base 0 dbs ≡ peek mem ptr length)
      × ((b w : ℕ) → Apart base (dbs * mqnic_desc_size) b w → word result b w ≡ word buf b w)
unfolding write_rx_desc
write_rx_desc_lem mem zero base ptr length buf pos h = elim pos [ ]
write_rx_desc_lem mem (suc dbs) base ptr length buf {result} pos h = (
  gather_segments mem (suc dbs) base ptr length dbs 0 0 buf h (omega arith) (omega arith)
      ∙ ap₂ (peek mem) (add-zero ptr) whole,
  λ b w a. write_segments_frame (suc dbs) base ptr length (suc dbs) 0 0 buf b w h (shift b w a),
)
  where
    whole : length - 0 ≡ length
    whole = omega arith

    shift : (b w : ℕ) → Apart base (suc dbs * 16) b w → Apart (base + 0 * 16) (suc dbs * 16) b w
    shift b w (inl l) = inl (omega arith)
    shift b w (inr r) = inr (omega arith)

-- Addresses of 64 bits, lengths of 32 and commands of 16 always fit: the loop never raises.
write_segments_total :
    (dbs base ptr length rounds k offset : ℕ) (buf : Bytes)
    → offset ≤ length
    → ptr + length < 2 ^ 64
    → length < 2 ^ 32
    → (result : Bytes) × (write_segments dbs base ptr length rounds k offset buf ≡ ok result)
unfolding write_segments
write_segments_total dbs base ptr length zero k offset buf le ap_ len = (buf, refl)
write_segments_total dbs base ptr length (suc rounds) k offset buf le ap_ len =
    let seg : ℕ = segment dbs k (length - offset) in
    let (buf', p) =
      pack_into_total buf (base + k * mqnic_desc_size)
        ((4, 0) ∷ (4, seg) ∷ (8, segment_ptr seg (ptr + offset)) ∷ [])
        (omega arith, (ground arith, (ground arith, tt))) in
    rw p (
      write_segments_total dbs base ptr length rounds (k + 1) (offset + seg) buf' (ground arith) ap_
        len)

-- A packet whose addresses fit 64 bits, whose length fits 32 and whose checksum command fits 16 has
-- its transmit descriptors written: `struct.error` is not raised.
pub write_tx_desc_total :
    (dbs base csum ptr length : ℕ) (buf : Bytes)
    → csum < 2 ^ 16
    → ptr + length < 2 ^ 64
    → length < 2 ^ 32
    → (result : Bytes) × (write_tx_desc dbs base csum ptr length buf ≡ ok result)
unfolding write_tx_desc
write_tx_desc_total dbs base csum ptr length buf c a len =
    let seg : ℕ = first_segment dbs length in
    let (buf', p) =
      pack_into_total buf base ((2, 0) ∷ (2, csum) ∷ (4, seg) ∷ (8, segment_ptr seg ptr) ∷ [])
        (omega arith, (omega arith, (ground arith, (ground arith, tt)))) in
    rw p (write_segments_total dbs base ptr length (dbs - 1) 1 seg buf' (ground arith) a len)

-- A buffer whose addresses fit 64 bits and whose length fits 32 has its receive descriptors written:
-- `struct.error` is not raised.
pub write_rx_desc_total :
    (dbs base ptr length : ℕ) (buf : Bytes)
    → ptr + length < 2 ^ 64
    → length < 2 ^ 32
    → (result : Bytes) × (write_rx_desc dbs base ptr length buf ≡ ok result)
unfolding write_rx_desc
write_rx_desc_total dbs base ptr length buf a len =
    write_segments_total dbs base ptr length dbs 0 0 buf (omega arith) a len
