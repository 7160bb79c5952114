-- ===== src/Examples/Market.antt =====
-- Execution reports and bids.
use subnet.Prelude.{
  ℕ, String, ◌≡◌, ◌↔◌, true, false, none, some, [], ◌∷◌, map, arith, nat_eq, text_Eq, is_empty, All,
}
use subnet.Map.{Map}
use subnet.Reports.{
  nonneg, success, ExecutionReport, ExecutionTask, ReportValidationRules, VerificationEvidence,
}
use subnet.Reports.Rules.{validate_execution_report}
use subnet.Reports.Rules.Accept.{IsAcceptable, validate_execution_report_iff}
use subnet.Reports.Batch.{IsAccepted, error_of, validate_batch, validate_batch_lem}
use subnet.Bids.{Bid, Intent, BidBook, new_bid_book, start_bidding, add_bid}
use subnet.Bids.Invariant.{new_bid_book-Inv, start_bidding-Inv}
use subnet.Bids.Offers.{Outcome, add_bid-Outcome}

abbrev evidence : VerificationEvidence
evidence = record {
  env_fingerprint = 1 ∷ [];
  inputs_hash = 2 ∷ [];
  outputs_hash = 3 ∷ [];
  transcript_root = [];
  proof_exec = 4 ∷ [];
  resource_usage = none;
  external_refs = [];
}

abbrev report : ExecutionReport
report = record {
  report_id = "r";
  assignment_id = "t";
  intent_id = "i";
  agent_id = "a";
  status = success;
  result_data = 9 ∷ [];
  evidence = some evidence;
  error = none;
  timestamp = nonneg 1000;
  signature = 5 ∷ [];
}

abbrev task : ExecutionTask
task = record { task_id = "t"; intent_id = "i"; agent_id = "a"; created_at = nonneg 990 }

-- Thirty minutes, five minutes, and a verifier that takes every signature.
abbrev rules : ReportValidationRules
rules = record {
  max_execution_time = 1800000000000;
  max_time_drift = 300000000000;
  require_evidence = true;
  require_signature = true;
  verifier = some (λ r. true);
}

abbrev clock : ℕ
clock = 1001000000000

validate_execution_report_iff_example :
    (validate_execution_report rules clock (some report) (some task) ≡ none)
    ↔ IsAcceptable rules clock report (some task)
validate_execution_report_iff_example =
    validate_execution_report_iff rules clock report (some task) (omega arith)

abbrev tasks : Map String ExecutionTask
tasks = ("t", task) ∷ []

validate_batch_lem_example :
    ((validate_batch rules clock (some report ∷ none ∷ []) tasks).0
      ≡ map (error_of rules clock tasks) (some report ∷ none ∷ []))
    × (((validate_batch rules clock (some report ∷ none ∷ []) tasks).1 ≡ none) ↔ (
        (is_empty (some report ∷ none ∷ []) ≡ false)
        × All (IsAccepted rules clock tasks) (some report ∷ none ∷ [])))
validate_batch_lem_example =
    validate_batch_lem rules clock tasks (some report ∷ none ∷ []) (omega arith)

abbrev intent : Intent
intent = record { intent_id = "i"; bidding_start_time = 10; bidding_end_time = 20 }

abbrev book : BidBook
book = (start_bidding new_bid_book intent).0

abbrev bid : Bid
bid = record {
  bid_id = "b";
  intent_id = "i";
  agent_id = "a";
  price = 7;
  submitted_at = 12;
  signature = "s";
}

add_bid-Outcome_example : Outcome 12 book bid (add_bid 12 book bid)
add_bid-Outcome_example =
    add_bid-Outcome 12 book bid (start_bidding-Inv new_bid_book intent new_bid_book-Inv)
