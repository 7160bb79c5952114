-- ===== src/Reports/Rules/Accept.antt =====
-- What an accepted report is.
use subnet.Prelude.{
  ℕ, ◌<◌, ◌≡◌, refl, subst, ◌↔◌, Bool, true, false, Option, none, some, arith, nat_eq, text_Eq,
  if◌then◌else◌, some_eq, is_empty,
}
use subnet.Reports.{
  ExecutionReport, ExecutionTask, ReportValidationRules, EvidenceError, ReportError, bad_evidence,
}
use mathlib.Core.Option
use subnet.Reports.Rules.{
  verifies, max_duration, created, validate_assigned, or_else, validate_signature,
  validate_execution_report,
}
use subnet.Reports.Rules.Fields.{
  HasFields, IsFor, IsConsistent, validate_basic_fields_iff, validate_report_matches_assignment_iff,
  validate_status_consistency_iff,
}
use subnet.Reports.Rules.Times.{IsNear, IsInTime, validate_timestamps_iff}
use subnet.Reports.Rules.Evidence.{HasEvidence, validate_evidence_iff}

-- The report has a signature, which the verifier accepts where there is one.
abbrev IsSigned : ReportValidationRules → ExecutionReport → Type 0
IsSigned rules r = (is_empty r.signature ≡ false) × (verifies rules.verifier r ≡ true)

-- What the rules ask of a report.
pub record IsAcceptable (rules : ReportValidationRules) (now : ℕ) (r : ExecutionReport)
    (a : Option ExecutionTask) : Type 0 where
  pub fields : HasFields r
  pub assigned : (t : ExecutionTask) → a ≡ some t → IsFor r t
  pub near : IsNear rules now r.timestamp
  pub in_time : IsInTime rules.max_execution_time r.timestamp (created a)
  pub consistent : IsConsistent r
  pub evidence : rules.require_evidence ≡ true → HasEvidence r
  pub signed : rules.require_signature ≡ true → IsSigned rules r

or_else_iff :
    {A B : Type 0} (o rest : Option ReportError)
    → (o ≡ none) ↔ A
    → (rest ≡ none) ↔ B
    → (or_else o rest ≡ none) ↔ (A × B)
or_else_iff none rest f g = (λ e. (f.0 refl, g.0 e), λ h. g.1 h.1)
or_else_iff (some e) rest f g = (λ n. absurd (ground (arith, n)), λ h. f.1 h.0)

assignment_iff :
    (r : ExecutionReport) (a : Option ExecutionTask)
    → (validate_assigned r a ≡ none) ↔ ((t : ExecutionTask) → a ≡ some t → IsFor r t)
assignment_iff r none = (λ e t h. absurd (ground (arith, h)), λ h. refl)
assignment_iff r (some a) =
    let m = validate_report_matches_assignment_iff r a in
    (λ h t e. subst (IsFor r) (some_eq e) (m.0 h), λ h. m.1 (h a refl))

bad_evidence_iff :
    {A : Type 0} (o : Option EvidenceError)
    → (o ≡ none) ↔ A
    → (Option.map bad_evidence o ≡ none) ↔ A
bad_evidence_iff none f = (λ e. f.0 refl, λ a. refl)
bad_evidence_iff (some e) f = (λ n. absurd (ground (arith, n)), λ a. absurd (ground (arith, f.1 a)))

required_iff :
    {A : Type 0} (b : Bool) (o : Option ReportError)
    → (o ≡ none) ↔ A
    → ((if b then o else none) ≡ none) ↔ (b ≡ true → A)
required_iff true o h = (λ e t. h.0 e, λ f. h.1 (f refl))
required_iff false o h = (λ e t. absurd (ground (arith, t)), λ f. refl)

signature_iff :
    (rules : ReportValidationRules) (r : ExecutionReport)
    → (validate_signature rules r ≡ none) ↔ IsSigned rules r
unfolding validate_signature
signature_iff rules r = ground arith

-- The validator accepts a report exactly when it is acceptable: its fields are there, it names its
-- assignment, its time lies in the window, its status fits its contents, and it has the evidence
-- and the signature that the rules ask for. The execution time of the rules is below the
-- greatest duration.
pub validate_execution_report_iff :
    (rules : ReportValidationRules) (now : ℕ) (r : ExecutionReport) (a : Option ExecutionTask)
    → rules.max_execution_time < max_duration
    → (validate_execution_report rules now (some r) a ≡ none) ↔ IsAcceptable rules now r a
unfolding validate_execution_report
validate_execution_report_iff rules now r a b =
    let checks = or_else_iff _ _ (validate_basic_fields_iff r) (
      or_else_iff _ _ (assignment_iff r a) (
        or_else_iff _ _ (validate_timestamps_iff rules now r a b) (
          or_else_iff _ _ (validate_status_consistency_iff r) (
            or_else_iff _ _
              (required_iff rules.require_evidence _ (bad_evidence_iff _ (validate_evidence_iff r)))
              (required_iff rules.require_signature _ (signature_iff rules r)))))) in
    (
      λ h.
          let (fields, (assigned, ((near, in_time), (consistent, (evidence, signed))))) =
            checks.0 h in
          record {
            fields = fields;
            assigned = assigned;
            near = near;
            in_time = in_time;
            consistent = consistent;
            evidence = evidence;
            signed = signed;
          },
      λ h.
          checks.1
            (h.fields, (h.assigned, ((h.near, h.in_time), (h.consistent, (h.evidence, h.signed))))),
    )
