-- ===== src/Drain/Tests.antt =====
-- A completion ring of one entry, new at the pointer 0.
use schedra_nic.Prelude.{ℕ, ◌+◌, ◌≤◌, ◌≡◌, refl, true}
use schedra_nic.Drain.{is_empty}
use schedra_nic.Drain.Phase.{empty_within_round}
use schedra_nic.Sample.{cq}

empty_within_round_example : (n : ℕ) × (n ≤ 1) × (is_empty cq.buf 1 0 32 (0 + n) ≡ true)
empty_within_round_example = empty_within_round cq.buf 0 1 0 32 refl refl 0
