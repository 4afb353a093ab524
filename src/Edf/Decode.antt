-- ===== src/Edf/Decode.antt =====
-- What is read back from the packets of the test.
use schedra_nic.Prelude.{
  ℕ, zero, suc, sym, take, some, get_elem?, same-some, ◌-◌, ◌^◌, ◌≤◌, ◌<◌, ◌≡◌, refl, ap, ◌∙◌, true,
  false, ltb, List, [], ◌∷◌, ◌++◌, length, length-replicate, replicate, arith,
}
use schedra_nic.Device.{ok, err, timeout_error}
use schedra_nic.Edf.{
  Config, little, from_little, build_sched_test_pkt, read_pkt, receive_all, has_qid,
}

from_little-little : (x : ℕ) → x < 2 ^ 32 → from_little (little 4 x) ≡ x
unfolding from_little little
from_little-little x h = omega arith

-- The packet of a queue below 256 and a sequence number of 32 bits has the size asked for, from 5
-- on, and both are read back from it.
read_pkt-build_sched_test_pkt :
    (qid seq size : ℕ)
    → 5 ≤ size
    → qid < 256
    → seq < 2 ^ 32
    → (pkt : List ℕ) × (build_sched_test_pkt qid seq size ≡ ok pkt)
      × (read_pkt pkt ≡ ok (qid, seq))
      × (length pkt ≡ size)
unfolding build_sched_test_pkt read_pkt
read_pkt-build_sched_test_pkt qid seq size long q s = (
  qid ∷ (little 4 seq ++ replicate (size - 5) 0),
  rw (not_short long, below q, fits s) refl,
  rw read_back refl,
  omega (arith, length-replicate {A = ℕ} (size - 5) 0),
)
  where
    not_short : 5 ≤ size → ltb size 5 ≡ false
    not_short h = ground (arith, h)

    below : qid < 256 → ltb qid 256 ≡ true
    below h = ground (arith, h)

    fits : seq < 2 ^ 32 → ltb seq (2 ^ 32) ≡ true
    fits h = ground (arith, h)

    read_back : from_little (little 4 seq) ≡ seq
    read_back = from_little-little seq s

-- The packets of an order of queues and sequence numbers, as the test builds them.
pub data BuiltAll (size : ℕ) : List (ℕ × ℕ) → List (List ℕ) → Type 0 where
  built_none : BuiltAll size [] []
  built_next :
      (qid seq : ℕ) (pkt : List ℕ) (order : List (ℕ × ℕ)) (pkts : List (List ℕ))
      → build_sched_test_pkt qid seq size ≡ ok pkt
      → BuiltAll size order pkts
      → BuiltAll size ((qid, seq) ∷ order) (pkt ∷ pkts)

-- A packet of the test: of a configured queue, with a sequence number below its count.
pub record IsSent (configs : List Config) (packet : ℕ × ℕ) : Type 0 where
  pub place : ℕ
  pub config : Config
  pub at : get_elem? configs place ≡ some config
  pub qid : config.qid ≡ packet.0
  pub below : packet.1 < config.count
  pub byte : packet.0 < 256
  pub four_bytes : packet.1 < 2 ^ 32

pub configured :
    (configs : List Config) (place : ℕ) {config : Config} (q : ℕ)
    → get_elem? configs place ≡ some config
    → config.qid ≡ q
    → has_qid q configs ≡ true
configured [] place q at e = absurd (cc)
configured (c ∷ cs) zero q at e = ground (arith, e, ap (λ (z : Config). z.qid) (same-some at))
configured (c ∷ cs) (suc place) q at e = ground (arith, configured cs place q at e)

same-ok : {x y : List ℕ} → ok x ≡ ok y → x ≡ y
same-ok h = cc

-- A packet that was built is read back.
here_read :
    {size qid seq : ℕ} {pkt : List ℕ} {configs : List Config}
    → 5 ≤ size
    → build_sched_test_pkt qid seq size ≡ ok pkt
    → IsSent configs (qid, seq)
    → read_pkt pkt ≡ ok (qid, seq)
here_read {size} {qid} {seq} long b first =
    let (pkt', b', back, _) =
      read_pkt-build_sched_test_pkt qid seq size long first.byte first.four_bytes in
    ap read_pkt (sym (same-ok (sym b' ∙ b))) ∙ back

module _ (configs : List Config) (size : ℕ) (long : 5 ≤ size) where
  -- While enough packets come, those that are waited for are read back in the order in which they
  -- come.
  pub receive_all-BuiltAll :
      (total : ℕ) {order : List (ℕ × ℕ)} {pkts : List (List ℕ)}
      → BuiltAll size order pkts
      → ((k : ℕ) (x : ℕ × ℕ) → get_elem? order k ≡ some x → IsSent configs x)
      → total ≤ length order
      → receive_all configs total pkts ≡ ok (take total order)
  unfolding receive_all
  receive_all-BuiltAll zero b sent le = refl
  receive_all-BuiltAll (suc total) built_none sent le = absurd (omega arith)
  receive_all-BuiltAll (suc total) (built_next qid seq pkt order pkts b rest) sent le =
      let first = sent 0 (qid, seq) refl in
      let others = receive_all-BuiltAll total rest (λ k x h. sent (suc k) x h) (omega arith) in
      rw (here_read long b first, configured configs first.place qid first.at first.qid, others)
        refl

  -- When fewer come, the wait for the next one times out.
  pub receive_all_timeout :
      (total : ℕ) {order : List (ℕ × ℕ)} {pkts : List (List ℕ)}
      → BuiltAll size order pkts
      → ((k : ℕ) (x : ℕ × ℕ) → get_elem? order k ≡ some x → IsSent configs x)
      → length order < total
      → receive_all configs total pkts ≡ err timeout_error
  unfolding receive_all
  receive_all_timeout zero b sent l = absurd (omega arith)
  receive_all_timeout (suc total) built_none sent l = refl
  receive_all_timeout (suc total) (built_next qid seq pkt order pkts b rest) sent l =
      let first = sent 0 (qid, seq) refl in
      let others = receive_all_timeout total rest (λ k x h. sent (suc k) x h) (omega arith) in
      rw (here_read long b first, configured configs first.place qid first.at first.qid, others)
        refl

-- The first of some packets were sent, if all were.
pub take-IsSent :
    (configs : List Config) (total : ℕ) (order : List (ℕ × ℕ))
    → ((k : ℕ) (x : ℕ × ℕ) → get_elem? order k ≡ some x → IsSent configs x)
    → (k : ℕ) (x : ℕ × ℕ) → get_elem? (take total order) k ≡ some x
    → IsSent configs x
take-IsSent configs zero order sent k x h = absurd (cc)
take-IsSent configs (suc total) [] sent k x h = absurd (cc)
take-IsSent configs (suc total) (y ∷ ys) sent zero x h = sent 0 x h
take-IsSent configs (suc total) (y ∷ ys) sent (suc k) x h =
    take-IsSent configs total ys (λ j z g. sent (suc j) z g) k x h
