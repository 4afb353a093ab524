-- ===== src/Setup/Channels.antt =====
-- The receive queue map: the loop of `Interface.init` over the ports' channels.
use mathlib.Core.List.{append-nil, append_assoc}
use schedra_nic.Prelude.{
  ℕ, zero, suc, ◌+◌, ◌*◌, ◌≡◌, ◌∙◌, sym, refl, List, [], ◌∷◌, ◌++◌, arith, length, range_from,
  length-append, get_elem?_in_range,
}
use schedra_nic.Device.{ok, Write, write_dword}
use schedra_nic.RegBlocks.{RegBlock}
use schedra_nic.Setup.{
  set_rx_queue_map_rss_mask, set_rx_queue_map_app_mask, set_rx_queue_map_indir_table, map_channels,
}

-- The windows of the ports from one on: what the offset registers of their channels read, the first
-- in each channel of 16 bytes.
abbrev pub windows_from : (ℕ → ℕ) → RegBlock → (k n : ℕ) → List ℕ
windows_from read rb k zero = []
windows_from read rb k (suc n) =
    read (rb.offset + (0x10 + 0x10 * k + 0x00)) ∷ windows_from read rb (k + 1) n

-- The loop finds the window of each port, and raises nothing.
pub map_channels_lem :
    (read : ℕ → ℕ) (rb : RegBlock) (n k : ℕ) (windows : List ℕ)
    → length windows ≡ k
    → (windows' : List ℕ) × (ws : List Write) × (map_channels read rb (range_from k n) windows
        ≡ ok (windows', ws))
      × (windows' ≡ windows ++ windows_from read rb k n)
unfolding map_channels set_rx_queue_map_indir_table
map_channels_lem read rb zero k windows e = (windows, [], refl, sym (append-nil windows))
map_channels_lem read rb (suc n) k windows e =
    let w : ℕ = read (rb.offset + (16 + 16 * k + 0)) in
    let grown : length (windows ++ w ∷ []) ≡ k + 1 =
      omega (arith, e, length-append windows (w ∷ [])) in
    let (here, at) = get_elem?_in_range (windows ++ w ∷ []) k (omega (arith, grown)) in
    let (windows', ws, rest, all) = map_channels_lem read rb n (k + 1) (windows ++ w ∷ []) grown in
    (
      windows',
      set_rx_queue_map_rss_mask rb k 0
          ++ set_rx_queue_map_app_mask rb k 0
          ++ (write_dword here 0 0 ∷ [])
          ++ ws,
      ground (arith, at, rest),
      all ∙ append_assoc windows (w ∷ []) (windows_from read rb (k + 1) n),
    )
