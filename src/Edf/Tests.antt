-- ===== src/Edf/Tests.antt =====
-- Two queues of two packets each, which come against the order of their ranks.
use schedra_nic.Prelude.{
  ℕ, zero, suc, ◌<◌, ◌≡◌, ◌≤◌, ◌⊎◌, take, length, refl, subst, List, [], ◌∷◌, some, get_elem?,
  same-some, arith,
}
use schedra_nic.Device.{err, timeout_error}
use schedra_nic.Edf.{Config, total_of, build_sched_test_pkt, test_edf, little}
use schedra_nic.Edf.Decode.{BuiltAll, built_none, built_next, IsSent}
use schedra_nic.Edf.Verdict.{Judged, test_edf_lem}

abbrev configs : List Config
configs =
    record { qid = 0; base_deadline = 1000; count = 2 }
    ∷ record { qid = 1; base_deadline = 1600; count = 1 }
    ∷ []

abbrev order : List (ℕ × ℕ)
order = (1, 0) ∷ (0, 1) ∷ (0, 0) ∷ []

abbrev pkts : List (List ℕ)
pkts = (1 ∷ 0 ∷ 0 ∷ 0 ∷ 0 ∷ []) ∷ (0 ∷ 1 ∷ 0 ∷ 0 ∷ 0 ∷ []) ∷ (0 ∷ 0 ∷ 0 ∷ 0 ∷ 0 ∷ []) ∷ []

pkts_built : BuiltAll 5 order pkts
unfolding build_sched_test_pkt little
pkts_built =
    built_next 1 0 (1 ∷ 0 ∷ 0 ∷ 0 ∷ 0 ∷ []) ((0, 1) ∷ (0, 0) ∷ [])
      ((0 ∷ 1 ∷ 0 ∷ 0 ∷ 0 ∷ []) ∷ (0 ∷ 0 ∷ 0 ∷ 0 ∷ 0 ∷ []) ∷ []) refl
      (built_next 0 1 (0 ∷ 1 ∷ 0 ∷ 0 ∷ 0 ∷ []) ((0, 0) ∷ []) ((0 ∷ 0 ∷ 0 ∷ 0 ∷ 0 ∷ []) ∷ []) refl
        (built_next 0 0 (0 ∷ 0 ∷ 0 ∷ 0 ∷ 0 ∷ []) [] [] refl built_none))

first-IsSent : (s : ℕ) → s < 2 → IsSent configs (0, s)
first-IsSent s l = record {
  place = 0;
  config = record { qid = 0; base_deadline = 1000; count = 2 };
  at = refl;
  qid = refl;
  below = l;
  byte = omega arith;
  four_bytes = omega arith;
}

all-IsSent : (k : ℕ) (x : ℕ × ℕ) → get_elem? order k ≡ some x → IsSent configs x
all-IsSent zero x h = subst (IsSent configs) (same-some h) (record {
  place = 1;
  config = record { qid = 1; base_deadline = 1600; count = 1 };
  at = refl;
  qid = refl;
  below = omega arith;
  byte = omega arith;
  four_bytes = omega arith;
})
all-IsSent (suc zero) x h = subst (IsSent configs) (same-some h) (first-IsSent 1 (omega arith))
all-IsSent (suc (suc zero)) x h =
    subst (IsSent configs) (same-some h) (first-IsSent 0 (omega arith))
all-IsSent (suc (suc (suc k))) x h = absurd (cc)

test_edf_lem_example :
    ((length order < total_of configs) × (test_edf configs pkts ≡ err timeout_error))
    ⊎ ((total_of configs ≤ length order)
        × Judged configs (take (total_of configs) order) (test_edf configs pkts))
test_edf_lem_example = test_edf_lem configs 5 (omega arith) pkts_built all-IsSent
