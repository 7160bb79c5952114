-- ===== src/Reports/Rules/Times.antt =====
-- The time window of a report.
use subnet.Prelude.{ℕ, suc, ◌+◌, ◌≤◌, ◌<◌, ◌≡◌, ◌↔◌, Option, none, some, arith, nat_eq, text_Eq}
use subnet.Reports.{Int64, ExecutionReport, ExecutionTask, ReportValidationRules, nonneg, negative}
use subnet.Reports.Rules.{
  seconds, max_duration, validate_execution_time, created, validate_timestamps,
}

-- When a report with this timestamp is in time for an assignment created at the second c.
abbrev pub IsInTime : ℕ → Int64 → Option ℕ → Type 0
IsInTime limit t none = Unit {0}
IsInTime limit (negative t) (some c) = ⊥
IsInTime limit (nonneg t) (some c) = (c ≤ t) × (seconds t ≤ seconds c + limit)

-- The timestamp is at most the drift ahead of the clock and at most the drift and the execution
-- time behind it; a negative one counts back from 1970.
abbrev pub IsNear : ReportValidationRules → ℕ → Int64 → Type 0
IsNear rules now (nonneg t) =
    (seconds t ≤ now + rules.max_time_drift)
    × (now ≤ seconds t + (rules.max_time_drift + rules.max_execution_time))
IsNear rules now (negative t) =
    now + seconds (suc t) ≤ rules.max_time_drift + rules.max_execution_time

execution_time_iff :
    (limit : ℕ) (t : Int64) (c : Option ℕ)
    → limit < max_duration
    → ((elim c [ none ↦ none | some c ↦ validate_execution_time limit t c ]) ≡ none)
      ↔ IsInTime limit t c
execution_time_iff limit t none b = ground arith
execution_time_iff limit (negative t) (some c) b = ground arith
execution_time_iff limit (nonneg t) (some c) b = ground arith

timestamps_at :
    (rules : ReportValidationRules) (now : ℕ) (r : ExecutionReport) (a : Option ExecutionTask)
    (t : Int64)
    → rules.max_execution_time < max_duration
    → (validate_timestamps rules now (record r { timestamp = t }) a ≡ none)
      ↔ (IsNear rules now t × IsInTime rules.max_execution_time t (created a))
unfolding validate_timestamps
timestamps_at rules now r a (nonneg t) b =
    ground (arith, execution_time_iff rules.max_execution_time (nonneg t) (created a) b)
timestamps_at rules now r a (negative t) b =
    ground (arith, execution_time_iff rules.max_execution_time (negative t) (created a) b)

pub validate_timestamps_iff :
    (rules : ReportValidationRules) (now : ℕ) (r : ExecutionReport) (a : Option ExecutionTask)
    → rules.max_execution_time < max_duration
    → (validate_timestamps rules now r a ≡ none)
      ↔ (IsNear rules now r.timestamp × IsInTime rules.max_execution_time r.timestamp (created a))
validate_timestamps_iff rules now r a b = timestamps_at rules now r a r.timestamp b
