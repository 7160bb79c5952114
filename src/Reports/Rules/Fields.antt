-- ===== src/Reports/Rules/Fields.antt =====
-- The checks on a report's fields, its status and its assignment.
use subnet.Prelude.{
  ◌≡◌, refl, sym, subst, ◌≢◌, ◌↔◌, ◌⊎◌, Bool, true, false, Option, none, some, eq_iff, arith,
  nat_eq, text_Eq, if◌then◌else◌, some_eq, is_some, is_empty, beq_refl,
}
use subnet.Reports.{
  Int64, Status, ErrorInfo, ExecutionReport, ExecutionTask, ReportError, nonneg, negative,
  status_unspecified, success, failed, partial, other_status,
}
use subnet.Reports.Rules.{
  is_unspecified, is_zero, validate_basic_fields, validate_report_matches_assignment,
  validate_status_consistency,
}

unspecified_iff : (s : Status) → (is_unspecified s ≡ true) ↔ (s ≡ status_unspecified)
unspecified_iff status_unspecified = (λ e. refl, λ e. refl)
unspecified_iff success = ground arith
unspecified_iff failed = ground arith
unspecified_iff partial = ground arith
unspecified_iff (other_status n) = ground arith

zero_iff : (t : Int64) → (is_zero t ≡ true) ↔ (t ≡ nonneg 0)
zero_iff (nonneg n) = ground arith
zero_iff (negative n) = ground arith

-- Every field that a report must have is there.
pub record HasFields (r : ExecutionReport) : Type 0 where
  pub report : r.report_id ≢ ""
  pub assignment : r.assignment_id ≢ ""
  pub intent : r.intent_id ≢ ""
  pub agent : r.agent_id ≢ ""
  pub status : r.status ≢ status_unspecified
  pub timestamp : r.timestamp ≢ nonneg 0

-- A chain of early returns is nil when no test holds.
rejects_iff :
    (b : Bool) (e : ReportError) (rest : Option ReportError)
    → ((if b then some e else rest) ≡ none) ↔ ((b ≡ false) × (rest ≡ none))
rejects_iff true e rest = ground arith
rejects_iff false e rest = ground arith

pub validate_basic_fields_iff :
    (r : ExecutionReport) → (validate_basic_fields r ≡ none) ↔ HasFields r
unfolding validate_basic_fields
validate_basic_fields_iff r =
    let report = eq_iff r.report_id "" in
    let assignment = eq_iff r.assignment_id "" in
    let intent = eq_iff r.intent_id "" in
    let agent = eq_iff r.agent_id "" in
    let status = unspecified_iff r.status in
    let timestamp = zero_iff r.timestamp in
    (
      λ h. record {
        report = λ e. ground arith;
        assignment = λ e. ground arith;
        intent = λ e. ground arith;
        agent = λ e. ground arith;
        status = λ e. ground arith;
        timestamp = λ e. ground arith;
      },
      λ h. ground (arith, h.report, h.assignment, h.intent, h.agent, h.status, h.timestamp),
    )

-- The report names the task, the intent and the agent of the assignment.
pub record IsFor (r : ExecutionReport) (a : ExecutionTask) : Type 0 where
  pub task : r.assignment_id ≡ a.task_id
  pub intent : r.intent_id ≡ a.intent_id
  pub agent : r.agent_id ≡ a.agent_id

pub validate_report_matches_assignment_iff :
    (r : ExecutionReport) (a : ExecutionTask)
    → (validate_report_matches_assignment r a ≡ none) ↔ IsFor r a
unfolding validate_report_matches_assignment
validate_report_matches_assignment_iff r a = (
  λ h. record {
    task = ground (arith, eq_iff r.assignment_id a.task_id);
    intent = ground (arith, eq_iff r.intent_id a.intent_id);
    agent = ground (arith, eq_iff r.agent_id a.agent_id);
  },
  λ h.
      rw (h.task, h.intent, h.agent, beq_refl a.task_id, beq_refl a.intent_id, beq_refl a.agent_id)
        refl,
)

-- What each status asks for.
abbrev pub IsConsistent : ExecutionReport → Type 0
IsConsistent r = elim r.status [
  | success ↦ (is_empty r.result_data ≡ false) × (r.error ≡ none)
  | failed ↦ (e : ErrorInfo) × (r.error ≡ some e) × ((e.code ≢ "") ⊎ (e.message ≢ ""))
  | partial ↦ (is_empty r.result_data ≡ false) ⊎ (is_some r.error ≡ true)
  | status_unspecified ↦ ⊥
  | other_status n ↦ ⊥
]

abbrev with_outcome : ExecutionReport → Status → Option ErrorInfo → ExecutionReport
with_outcome r s e = record r { status = s; error = e }

IsConsistent-at :
    (r : ExecutionReport) (s : Status) (e : Option ErrorInfo)
    → (validate_status_consistency (with_outcome r s e) ≡ none) ↔ IsConsistent (with_outcome r s e)
unfolding validate_status_consistency
IsConsistent-at r success none = ground arith
IsConsistent-at r success (some e) = ground arith
IsConsistent-at r failed none = ground arith
IsConsistent-at r failed (some e) =
    let code = eq_iff e.code "" in
    let message = eq_iff e.message "" in
    (
      λ h. (e, refl, ground arith),
      λ (x, same, h).
          let h' : (e.code ≢ "") ⊎ (e.message ≢ "") =
            subst (λ (y : ErrorInfo). (y.code ≢ "") ⊎ (y.message ≢ "")) (sym (some_eq same)) h in
          ground (arith, h'),
    )
IsConsistent-at r partial none = ground arith
IsConsistent-at r partial (some e) = ground arith
IsConsistent-at r status_unspecified e = ground arith
IsConsistent-at r (other_status n) e = ground arith

pub validate_status_consistency_iff :
    (r : ExecutionReport) → (validate_status_consistency r ≡ none) ↔ IsConsistent r
validate_status_consistency_iff r = IsConsistent-at r r.status r.error
