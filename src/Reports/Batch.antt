-- ===== src/Reports/Batch.antt =====
-- `ValidateBatch` of internal/validator/report_validator.go. A nil map of assignments holds none.
use subnet.Prelude.{
  ℕ, ◌<◌, String, ◌≡◌, refl, ap, ◌↔◌, Bool, false, ◌||◌, Option, none, some, List, [], ◌∷◌, map,
  arith, text_Eq, if◌then◌else◌, is_some, is_empty, All,
}
use subnet.Map.{Map, lookup}
use subnet.Reports.{ExecutionReport, ExecutionTask, ReportValidationRules, ReportError}
use subnet.Reports.Rules.{validate_execution_report, max_duration}
use subnet.Reports.Rules.Accept.{IsAcceptable, validate_execution_report_iff}

pub data BatchError : Type 0 where
  no_reports : BatchError
  batch_failed : BatchError

abbrev find_assignment : Map String ExecutionTask → Option ExecutionReport → Option ExecutionTask
find_assignment assignments none = none
find_assignment assignments (some r) = lookup r.assignment_id assignments

-- The loop: the error of each report, and `hasErrors`.
unfoldable pub validate_each :
    ReportValidationRules
    → ℕ
    → Map String ExecutionTask
    → List (Option ExecutionReport)
    → List (Option ReportError) × Bool
validate_each rules now assignments [] = ([], false)
validate_each rules now assignments (r ∷ rs) =
    let err = validate_execution_report rules now r (find_assignment assignments r) in
    let (results, has_errors) = validate_each rules now assignments rs in
    (err ∷ results, is_some err || has_errors)

unfoldable pub validate_batch :
    ReportValidationRules
    → ℕ
    → List (Option ExecutionReport)
    → Map String ExecutionTask
    → List (Option ReportError) × Option BatchError
validate_batch rules now [] assignments = ([], some no_reports)
validate_batch rules now (r ∷ rs) assignments =
    let (results, has_errors) = validate_each rules now assignments (r ∷ rs) in
    (results, if has_errors then some batch_failed else none)

module _ (rules : ReportValidationRules) (now : ℕ) (assignments : Map String ExecutionTask) where
  -- The report is there, and acceptable for the assignment that it names.
  abbrev pub IsAccepted : Option ExecutionReport → Type 0
  IsAccepted none = ⊥
  IsAccepted (some r) = IsAcceptable rules now r (lookup r.assignment_id assignments)

  -- The error of one report, against the assignment that it names.
  abbrev pub error_of : Option ExecutionReport → Option ReportError
  error_of r = validate_execution_report rules now r (find_assignment assignments r)

  IsAccepted-iff :
      (r : Option ExecutionReport)
      → rules.max_execution_time < max_duration
      → (validate_execution_report rules now r (find_assignment assignments r) ≡ none)
        ↔ IsAccepted r
  unfolding validate_execution_report
  IsAccepted-iff none b = ground arith
  IsAccepted-iff (some r) b =
      validate_execution_report_iff rules now r (lookup r.assignment_id assignments) b

  no_errors_iff :
      (rs : List (Option ExecutionReport))
      → rules.max_execution_time < max_duration
      → ((validate_each rules now assignments rs).1 ≡ false) ↔ All IsAccepted rs
  unfolding validate_each
  no_errors_iff [] b = (λ e. tt, λ a. refl)
  no_errors_iff (r ∷ rs) b = ground (arith, IsAccepted-iff r b, no_errors_iff rs b)

  results_lem :
      (rs : List (Option ExecutionReport))
      → (validate_each rules now assignments rs).0 ≡ map error_of rs
  unfolding validate_each
  results_lem [] = refl
  results_lem (r ∷ rs) = ap (λ (es : List (Option ReportError)). error_of r ∷ es) (results_lem rs)

  -- A batch answers with the error of each report in order, and as a whole it is accepted exactly
  -- when it is not empty and every report is there and acceptable for the assignment that it names.
  -- The execution time of the rules is below the greatest duration.
  pub validate_batch_lem :
      (rs : List (Option ExecutionReport))
      → rules.max_execution_time < max_duration
      → ((validate_batch rules now rs assignments).0 ≡ map error_of rs)
        × (((validate_batch rules now rs assignments).1 ≡ none)
            ↔ ((is_empty rs ≡ false) × All IsAccepted rs))
  unfolding validate_batch
  validate_batch_lem [] b = ground arith
  validate_batch_lem (r ∷ rs) b = (results_lem (r ∷ rs), ground (arith, no_errors_iff (r ∷ rs) b))
