-- ===== src/Rxq/Views.antt =====
-- `class Packet`: its length, its bytes, and what iterating over it gives.
use schedra_nic.Prelude.{ℕ, List, length}
use schedra_nic.Rxq.{Packet}

-- Packet.__iter__
unfoldable pub iter : Packet → List ℕ
iter skb = skb.payload

-- Packet.__len__
unfoldable pub len : Packet → ℕ
len skb = length skb.payload

-- Packet.__bytes__
unfoldable pub bytes : Packet → List ℕ
bytes skb = skb.payload
