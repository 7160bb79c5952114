-- ===== src/Examples/Sets.antt =====
-- Validator sets, thresholds and leaders.
use subnet.Prelude.{
  ℕ, ◌+◌, ◌-◌, ◌*◌, ◌≤◌, ◌<◌, ◌≡◌, refl, ◌↔◌, true, false, not, ◌&&◌, none, some, [], ◌∷◌, arith,
  leb, nat_eq, text_Eq, ◌==◌, length,
}
use subnet.Validators.{
  validate, required_signatures, check_threshold, u64, total_weight, check_weighted_threshold,
  total_weight_from,
}
use subnet.Validators.Members.{Distinct, validate_iff}
use subnet.Validators.Threshold.{
  Votes, in_both, count_by, required_signatures-least, quorum_overlap,
}
use subnet.Validators.Weight.{check_weighted_threshold-wraps}
use subnet.Consensus.Leader.{select_leader, new_tracker, record_activity, should_failover}
use subnet.Consensus.Leader.Rotation.{rotation_fair}
use subnet.Consensus.Leader.Failover.{asks_leader, asks_failover, ask_all, all_for, failover_iff}
use subnet.Examples.{three, heavy}

validate_iff_example : (validate three ≡ none) ↔ (
    (three.min_validators ≤ length three.validators)
    × (0 < three.threshold_num)
    × (three.threshold_num ≤ three.threshold_denom)
    × Distinct three.validators)
validate_iff_example = validate_iff three

three_validates : validate three ≡ none
three_validates =
    (validate_iff three).1 (omega arith, omega arith, omega arith, (refl, (refl, (refl, tt))))

required_signatures-least_example :
    (r : ℕ) × (required_signatures three ≡ some r)
    × (1 ≤ r)
    × (length three.validators * 2 ≤ r * 3)
    × ((k : ℕ) → 1 ≤ k → length three.validators * 2 ≤ k * 3 → r ≤ k)
required_signatures-least_example = required_signatures-least three (omega arith) (omega arith)

abbrev two_quorums : Votes
two_quorums = (true, false) ∷ (true, true) ∷ (false, true) ∷ []

two_reach : check_threshold three 2 ≡ some true
unfolding check_threshold required_signatures
two_reach = refl

quorum_overlap_example : length three.validators ≤ 3 * count_by in_both two_quorums
quorum_overlap_example =
    quorum_overlap three two_quorums (omega arith) (omega arith) (omega arith) refl two_reach
      two_reach

heavy_wraps : u64 (total_weight heavy * 2) ≡ 0
unfolding total_weight total_weight_from
heavy_wraps = refl

check_weighted_threshold-wraps_example : check_weighted_threshold heavy [] ≡ some true
check_weighted_threshold-wraps_example =
    check_weighted_threshold-wraps heavy (omega arith) heavy_wraps

rotation_fair_example :
    (k : ℕ) × (k < length three.validators) × (select_leader (7 + k) three ≡ some 2)
rotation_fair_example = rotation_fair three 7 2 (omega arith)

failover_iff_example :
    (should_failover
      (ask_all
        (record_activity (new_tracker three 10) 4 100)
        (asks_leader 4 ∷ asks_failover 4 105 ∷ []))
      4
      120).1
    ≡ (all_for 4 (asks_leader 4 ∷ asks_failover 4 105 ∷ [])
        && (not ((new_tracker three 10).timeout == 0)
            && leb (new_tracker three 10).timeout (120 - 100)))
failover_iff_example =
    failover_iff (new_tracker three 10) 4 100 120 (asks_leader 4 ∷ asks_failover 4 105 ∷ [])
