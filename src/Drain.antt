-- ===== src/Drain.antt =====
-- The loop that `Eq.process_eq`, `Txq.process_tx_cq` and `Rxq.process_rx_cq` of
-- tb/mqnic_core_pcie_us_schedule/mqnic.py share: entries of a ring in memory are consumed while
-- their owner bit differs from the phase of the consumer pointer.
pub mod Phase
pub mod Rounds
mod Tests
use schedra_nic.Prelude.{
  ℕ, zero, suc, ◌+◌, ◌*◌, Bool, true, false, not, ◌==◌, bit_and, if◌then◌else◌,
}
use schedra_nic.Device.{Result, ok, err, out_of_fuel, ◌>>=◌}
use schedra_nic.Struct.{Bytes, word}

-- bool(x)
abbrev pub truth : ℕ → Bool
truth x = not (x == 0)

abbrev pub same_bool : Bool → Bool → Bool
same_bool true b = b
same_bool false b = not b

-- `bool(data[-1] & 0x80000000) == bool(cons_ptr & size)`: the entry of 32 bytes at the pointer's
-- index has nothing new. The last field of either format is the dword at offset 28.
unfoldable pub is_empty : (buf : Bytes) (size size_mask stride cons_ptr : ℕ) → Bool
is_empty buf size size_mask stride cons_ptr =
    same_bool (truth (bit_and (word buf (bit_and cons_ptr size_mask * stride + 28) 4) 0x80000000))
      (truth (bit_and cons_ptr size))

-- `while True: if empty: break; body; cons_ptr += 1`. The body sees the pointer; the test sees the
-- state, which the body may have changed. The fuel bounds the rounds.
unfoldable pub drain {ℓ} :
    {S : Type ℓ} → ℕ → (ℕ → S → Bool) → (ℕ → S → Result S) → ℕ → S → Result (ℕ × S)
drain zero empty body cons_ptr s = if empty cons_ptr s then ok (cons_ptr, s) else err out_of_fuel
drain (suc fuel) empty body cons_ptr s =
    let round = (do s' ← body cons_ptr s; drain fuel empty body (cons_ptr + 1) s') in
    if empty cons_ptr s then ok (cons_ptr, s) else round
