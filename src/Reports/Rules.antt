-- ===== src/Reports/Rules.antt =====
-- The methods of `ReportValidationRules`, one function each: `none` is nil.
pub mod Fields
pub mod Times
pub mod Evidence
pub mod Accept
use subnet.Prelude.{
  ℕ, zero, suc, ◌+◌, ◌-◌, ◌*◌, Bool, true, false, not, ◌&&◌, Option, none, some, map, ltb, ◌==◌,
  nat_eq, text_Eq, if◌then◌else◌, is_some, is_empty, length,
}
use subnet.Bytes.{Bytes}
use mathlib.Core.Option
use subnet.Reports.{
  Int64, Status, ResourceUsage, ExecutionReport, ExecutionTask, ReportValidationRules,
  EvidenceError, ReportError, nonneg, negative, status_unspecified, success, failed, partial,
  other_status, report_id, assignment_id, intent_id, agent_id, status, timestamp, no_evidence,
  no_proof, no_fingerprint, no_inputs_hash, no_outputs_hash, no_transcript, no_references,
  unrealistic_cpu, unrealistic_memory, unrealistic_io, unrealistic_network, nil_report, empty_field,
  mismatch, in_the_future, too_old, before_assignment, took_too_long, no_result, unexpected_error,
  no_error_info, empty_error_info, no_result_or_error, unknown_status, bad_evidence, no_signature,
  bad_signature,
}

abbrev pub is_unspecified : Status → Bool
is_unspecified status_unspecified = true
is_unspecified _ = false

abbrev pub is_zero : Int64 → Bool
is_zero (nonneg zero) = true
is_zero _ = false

unfoldable pub validate_basic_fields : ExecutionReport → Option ReportError
validate_basic_fields r =
    if r.report_id == ""
    then some (empty_field report_id)
    else if r.assignment_id == ""
    then some (empty_field assignment_id)
    else if r.intent_id == ""
    then some (empty_field intent_id)
    else if r.agent_id == ""
    then some (empty_field agent_id)
    else if is_unspecified r.status
    then some (empty_field status)
    else if is_zero r.timestamp
    then some (empty_field timestamp)
    else none

unfoldable pub validate_report_matches_assignment :
    ExecutionReport → ExecutionTask → Option ReportError
validate_report_matches_assignment r a =
    if r.assignment_id == a.task_id
    then (if r.intent_id == a.intent_id
        then (if r.agent_id == a.agent_id then none else some (mismatch agent_id))
        else some (mismatch intent_id))
    else some (mismatch assignment_id)

-- No assignment is nothing to match.
abbrev pub validate_assigned : ExecutionReport → Option ExecutionTask → Option ReportError
validate_assigned r none = none
validate_assigned r (some a) = validate_report_matches_assignment r a

abbrev pub seconds : ℕ → ℕ
seconds n = n * 1000000000

-- `time.Unix(t, 0).After(limit)`
abbrev unix_is_after : Int64 → ℕ → Bool
unix_is_after (nonneg t) limit = ltb limit (seconds t)
unix_is_after (negative t) limit = false

-- `time.Unix(t, 0).Before(now.Add(-window))`
abbrev unix_is_before : Int64 → ℕ → ℕ → Bool
unix_is_before (nonneg t) window now = ltb (seconds t + window) now
unix_is_before (negative t) window now = ltb window (now + seconds (suc t))

-- `Sub` stops at the greatest duration.
abbrev pub max_duration : ℕ
max_duration = 9223372036854775807

abbrev saturated : ℕ → ℕ
saturated d = if ltb max_duration d then max_duration else d

-- The checks against an assignment that holds a positive creation time.
abbrev pub validate_execution_time : ℕ → Int64 → ℕ → Option ReportError
validate_execution_time limit (negative t) created = some before_assignment
validate_execution_time limit (nonneg t) created =
    if ltb t created
    then some before_assignment
    else if ltb limit (saturated (seconds (t - created)))
    then some took_too_long
    else none

abbrev pub created : Option ExecutionTask → Option ℕ
created none = none
created (some a) = elim a.created_at [ nonneg (suc c) ↦ some (suc c) | _ ↦ none ]

unfoldable pub validate_timestamps :
    ReportValidationRules → ℕ → ExecutionReport → Option ExecutionTask → Option ReportError
validate_timestamps rules now r assignment =
    if unix_is_after r.timestamp (now + rules.max_time_drift)
    then some in_the_future
    else if unix_is_before r.timestamp (rules.max_time_drift + rules.max_execution_time) now
    then some too_old
    else elim (created assignment) [
      | none ↦ none
      | some c ↦ validate_execution_time rules.max_execution_time r.timestamp c
    ]

unfoldable pub validate_status_consistency : ExecutionReport → Option ReportError
validate_status_consistency r = elim r.status [
  | success ↦
      if is_empty r.result_data
      then some no_result
      else if is_some r.error
      then some unexpected_error
      else none
  | failed ↦ elim r.error [
    | none ↦ some no_error_info
    | some e ↦ if e.code == "" && e.message == "" then some empty_error_info else none
  ]
  | partial ↦
      if is_empty r.result_data && not (is_some r.error) then some no_result_or_error else none
  | status_unspecified ↦ some unknown_status
  | other_status n ↦ some unknown_status
]

unfoldable pub validate_resource_usage : ResourceUsage → Option EvidenceError
validate_resource_usage u =
    if ltb 1000000000 u.cpu_ms
    then some unrealistic_cpu
    else if ltb 1000000000 u.memory_mb
    then some unrealistic_memory
    else if ltb 1000000000 u.io_ops
    then some unrealistic_io
    else if ltb 1125899906842624 u.network_bytes
    then some unrealistic_network
    else none

-- The end of `validateEvidence`.
abbrev pub validate_usage : Option ResourceUsage → Option EvidenceError
validate_usage none = none
validate_usage (some u) = validate_resource_usage u

abbrev is_large : Bytes → Bool
is_large result = ltb 1048576 (length result)

unfoldable pub validate_evidence : ExecutionReport → Option EvidenceError
validate_evidence r = elim r.evidence [
  | none ↦ some no_evidence
  | some e ↦
      if is_empty e.proof_exec
      then some no_proof
      else if is_empty e.env_fingerprint
      then some no_fingerprint
      else if is_empty e.inputs_hash
      then some no_inputs_hash
      else if is_empty e.outputs_hash
      then some no_outputs_hash
      else if is_large r.result_data && is_empty e.transcript_root
      then some no_transcript
      else if is_large r.result_data && is_empty e.external_refs
      then some no_references
      else validate_usage e.resource_usage
]

abbrev pub verifies : Option (ExecutionReport → Bool) → ExecutionReport → Bool
verifies none r = true
verifies (some verify) r = verify r

unfoldable pub validate_signature : ReportValidationRules → ExecutionReport → Option ReportError
validate_signature rules r =
    if is_empty r.signature
    then some no_signature
    else if verifies rules.verifier r
    then none
    else some bad_signature

-- The first error, if any: `if err != nil { return err }` before the rest.
abbrev pub or_else {ℓ} : {E : Type ℓ} → Option E → Option E → Option E
or_else (some e) rest = some e
or_else none rest = rest

unfoldable pub validate_execution_report :
    ReportValidationRules → ℕ → Option ExecutionReport → Option ExecutionTask → Option ReportError
validate_execution_report rules now none assignment = some nil_report
validate_execution_report rules now (some r) assignment = or_else (validate_basic_fields r) (
    or_else (validate_assigned r assignment) (
      or_else (validate_timestamps rules now r assignment) (
        or_else (validate_status_consistency r) (
          or_else
            (if rules.require_evidence then Option.map bad_evidence (validate_evidence r) else none)
            (if rules.require_signature then validate_signature rules r else none)))))
