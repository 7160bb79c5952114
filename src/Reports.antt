-- ===== src/Reports.antt =====
-- internal/validator/report_validator.go: the checks on an execution report. The messages are the
-- protobuf ones, less the fields that no check reads. Times are nanoseconds, timestamps are seconds;
-- `now` is the clock. Instants stay where `time.Time` does not wrap. A duration of the rules is not
-- negative, and the sum of two fits an int64.
pub mod Batch
pub mod Rules
use subnet.Prelude.{ℕ, String, Bool, Option, List}
use subnet.Bytes.{Bytes}

-- An int64: `nonneg n` is n, `negative n` is -(n + 1).
pub data Int64 : Type 0 where
  nonneg : ℕ → Int64
  negative : ℕ → Int64

pub data Status : Type 0 where
  status_unspecified : Status
  success : Status
  failed : Status
  partial : Status
  other_status : ℕ → Status

pub record ErrorInfo : Type 0 where
  pub code : String
  pub message : String

pub record ResourceUsage : Type 0 where
  pub cpu_ms : ℕ
  pub memory_mb : ℕ
  pub io_ops : ℕ
  pub network_bytes : ℕ

pub record VerificationEvidence : Type 0 where
  pub env_fingerprint : Bytes
  pub inputs_hash : Bytes
  pub outputs_hash : Bytes
  pub transcript_root : Bytes
  pub proof_exec : Bytes
  pub resource_usage : Option ResourceUsage
  pub external_refs : List String

pub record ExecutionReport : Type 0 where
  pub report_id : String
  pub assignment_id : String
  pub intent_id : String
  pub agent_id : String
  pub status : Status
  pub result_data : Bytes
  pub evidence : Option VerificationEvidence
  pub error : Option ErrorInfo
  pub timestamp : Int64
  pub signature : Bytes

pub record ExecutionTask : Type 0 where
  pub task_id : String
  pub intent_id : String
  pub agent_id : String
  pub created_at : Int64

-- The verifier service answers whether a report's signature is its agent's.
pub record ReportValidationRules : Type 0 where
  pub max_execution_time : ℕ
  pub max_time_drift : ℕ
  pub require_evidence : Bool
  pub require_signature : Bool
  pub verifier : Option (ExecutionReport → Bool)

pub data Field : Type 0 where
  report_id : Field
  assignment_id : Field
  intent_id : Field
  agent_id : Field
  status : Field
  timestamp : Field

pub data EvidenceError : Type 0 where
  no_evidence : EvidenceError
  no_proof : EvidenceError
  no_fingerprint : EvidenceError
  no_inputs_hash : EvidenceError
  no_outputs_hash : EvidenceError
  no_transcript : EvidenceError
  no_references : EvidenceError
  unrealistic_cpu : EvidenceError
  unrealistic_memory : EvidenceError
  unrealistic_io : EvidenceError
  unrealistic_network : EvidenceError

pub data ReportError : Type 0 where
  nil_report : ReportError
  empty_field : Field → ReportError
  mismatch : Field → ReportError
  in_the_future : ReportError
  too_old : ReportError
  before_assignment : ReportError
  took_too_long : ReportError
  no_result : ReportError
  unexpected_error : ReportError
  no_error_info : ReportError
  empty_error_info : ReportError
  no_result_or_error : ReportError
  unknown_status : ReportError
  bad_evidence : EvidenceError → ReportError
  no_signature : ReportError
  bad_signature : ReportError
