-- ===== src/Edf.antt =====
-- The EDF test of tb/mqnic_core_pcie_us_schedule/test_mqnic_core_pcie_us.py: the packets that it
-- sends and their ranks, what it reads back from the packets that come, and its verdict. The order
-- in which the packets come is a parameter; logging and plots are left out.
pub mod Decode
pub mod Verdict
mod Tests
use schedra_nic.Prelude.{
  ℕ, zero, suc, ◌+◌, ◌-◌, ◌*◌, ◌/◌, ◌%◌, ◌^◌, min, Bool, true, false, not, ◌&&◌, ◌||◌, List, [],
  ◌∷◌, ◌++◌, Option, none, some, ltb, ◌==◌, if◌then◌else◌, replicate, take, range_from,
}
use schedra_nic.Device.{
  Result, ok, err, guard, value_error, overflow_error, index_error, key_error, assertion_error,
  timeout_error, ◌>>=◌, ◌>>◌,
}

-- An entry of `queue_configs`.
pub record Config : Type 0 where
  pub qid : ℕ
  pub base_deadline : ℕ
  pub count : ℕ

-- `x.to_bytes(n, 'little')` of a number that fits.
unfoldable pub little : (n x : ℕ) → List ℕ
little zero x = []
little (suc n) x = x % 256 ∷ little n (x / 256)

-- `int.from_bytes(bytes, 'little')`
unfoldable pub from_little : List ℕ → ℕ
from_little [] = 0
from_little (b ∷ bs) = b + 256 * from_little bs

unfoldable pub build_sched_test_pkt : (qid seq size : ℕ) → Result (List ℕ)
unfolding little
build_sched_test_pkt qid seq size = do
  guard (not (ltb size 5)) value_error
  guard (ltb qid 256) value_error
  guard (ltb seq (2 ^ 32)) overflow_error
  ok (qid ∷ (little 4 seq ++ replicate (size - 5) 0))

-- `pkt.data[0]` and `int.from_bytes(pkt.data[1:5], 'little')`
unfoldable pub read_pkt : List ℕ → Result (ℕ × ℕ)
unfolding from_little
read_pkt [] = err index_error
read_pkt (qid ∷ rest) = ok (qid, from_little (take 4 rest))

abbrev pub has_qid : ℕ → List Config → Bool
has_qid q [] = false
has_qid q (cfg ∷ configs) = cfg.qid == q || has_qid q configs

-- The loop of receive_scheduler_packets, `for pos in range(total_pkts)`: the queues and sequence
-- numbers of the packets, in order. A packet that does not come in time raises SimTimeoutError, and
-- `recv_seqs[qid]` raises KeyError for a queue that is not configured; a packet after the last that
-- is waited for is not read.
unfoldable pub receive_all : List Config → (total_pkts : ℕ) → List (List ℕ) → Result (List (ℕ × ℕ))
unfolding read_pkt
receive_all configs zero pkts = ok []
receive_all configs (suc total_pkts) [] = err timeout_error
receive_all configs (suc total_pkts) (pkt ∷ pkts) = do
  (qid, seq) ← read_pkt pkt
  guard (has_qid qid configs) key_error
  rest ← receive_all configs total_pkts pkts
  ok ((qid, seq) ∷ rest)

-- `sum(cfg['count'] for cfg in queue_configs)`
abbrev pub total_of : List Config → ℕ
total_of [] = 0
total_of (cfg ∷ configs) = cfg.count + total_of configs

abbrev pub was_received : (qid seq : ℕ) → List (ℕ × ℕ) → Bool
was_received qid seq [] = false
was_received qid seq ((q, s) ∷ rest) = (q == qid && s == seq) || was_received qid seq rest

-- `expected_seqs[qid]` is range(count): of two configurations of one queue the last counts.
abbrev pub count_at : (qid : ℕ) → List Config → (count : ℕ) → ℕ
count_at q [] count = count
count_at q (cfg ∷ configs) count = count_at q configs (if cfg.qid == q then cfg.count else count)

-- `not (expected_seqs[qid] - recv_seqs[qid])`
unfoldable pub none_missing : (qid : ℕ) → (seqs : List ℕ) → List (ℕ × ℕ) → Bool
none_missing qid [] recv = true
none_missing qid (seq ∷ seqs) recv = was_received qid seq recv && none_missing qid seqs recv

-- `all_ok`
unfoldable pub all_ok : List Config → List Config → List (ℕ × ℕ) → Bool
unfolding none_missing
all_ok configs [] recv = true
all_ok configs (cfg ∷ rest) recv =
    none_missing cfg.qid (range_from 0 (count_at cfg.qid configs cfg.count)) recv
    && all_ok configs rest recv

-- `metric_lookup[(qid, seq)]`
unfoldable pub metric_at : List Config → (qid seq : ℕ) → Option ℕ → Result ℕ
metric_at [] qid seq none = err key_error
metric_at [] qid seq (some rank) = ok rank
metric_at (cfg ∷ configs) qid seq found = metric_at configs qid seq (
    if cfg.qid == qid && ltb seq cfg.count
    then some (min (cfg.base_deadline + seq * 11) 0x1FFF)
    else found)

-- The loop over `monotonic_violations`, from a position on.
unfoldable pub violations :
    List Config
    → (pos : ℕ) (prev_rank : Option ℕ) → List (ℕ × ℕ)
    → Result (List (ℕ × ℕ × ℕ × ℕ × ℕ))
unfolding metric_at
violations configs pos prev_rank [] = ok []
violations configs pos prev_rank ((qid, seq) ∷ recv) = do
  rank ← metric_at configs qid seq none
  rest ← violations configs (pos + 1) (some rank) recv
  ok (elim prev_rank [
    | none ↦ rest
    | some prev ↦ if ltb rank prev then (pos, prev, rank, qid, seq) ∷ rest else rest
  ])

-- test_edf, on the packets that come: what it warns of.
unfoldable pub test_edf : List Config → List (List ℕ) → Result (List (ℕ × ℕ × ℕ × ℕ × ℕ))
test_edf configs pkts = do
  recv ← receive_all configs (total_of configs) pkts
  warned ← violations configs 0 none recv
  guard (all_ok configs configs recv) assertion_error
  ok warned
