-- ===== src/Matcher.antt =====
-- internal/matcher/server.go: intents with their bidding windows, bids, results and assignments. The
-- lock makes each call one step, but for `SubmitBidBatch`, which takes it for each bid; a step is also
-- `tryAssignToRunnerUp` here, which takes the lock only in parts. Times are seconds and not negative, and sums of them do not wrap. The messages keep the
-- fields that the server reads or writes. Signer, SDK, hashing and `strings.TrimSpace` are the
-- fields of `Services`; what the chain and the root layer answer is in an `Attempt`.
pub mod Windows
pub mod Submission
pub mod Strategy
pub mod Matching
pub mod Tasks
pub mod Selection
pub mod Batches
pub mod Deadlines
pub mod Fates
pub mod RunnerUps
pub mod Invariant
use subnet.Prelude.{ℕ, String, Bool, Option, List, [], text_Eq}
use subnet.Map.{Map}
use subnet.Bytes.{Bytes}

pub data BidStatus : Type 0 where
  unspecified : BidStatus
  submitted : BidStatus
  accepted : BidStatus
  rejected : BidStatus
  winner : BidStatus
  runner_up : BidStatus
  other_status : ℕ → BidStatus

pub record Bid : Type 0 where
  pub bid_id : String
  pub intent_id : String
  pub agent_id : String
  pub price : ℕ
  pub status : BidStatus
  pub metadata : Map String String

-- `params` is what `IntentParams` carries, if the message has them.
pub record Intent : Type 0 where
  pub intent_id : String
  pub intent_type : String
  pub params : Option Bytes
  pub deadline : ℕ
  pub intent_expiration : ℕ

pub record IntentWithWindow : Type 0 where
  pub intent : Intent
  pub bidding_start_time : ℕ
  pub bidding_end_time : ℕ
  pub window_closed : Bool
  pub matched : Bool

pub record MatchingResult : Type 0 where
  pub matcher_id : String
  pub intent_id : String
  pub winning_bid_id : String
  pub winning_agent_id : String
  pub runner_up_bid_ids : List String
  pub matched_at : ℕ
  pub matching_reason : String
  pub result_hash : Bytes
  pub matcher_signature : Bytes

-- The status is always `ASSIGNMENT_ACTIVE`.
pub record Assignment : Type 0 where
  pub assignment_id : String
  pub intent_id : String
  pub agent_id : String
  pub bid_id : String
  pub matcher_id : String
  pub signature : Bytes

-- `created_at` is in nanoseconds.
pub record PendingAssignment : Type 0 where
  pub assignment : Assignment
  pub created_at : ℕ
  pub intent : Intent

pub record ExecutionTask : Type 0 where
  pub task_id : String
  pub intent_id : String
  pub agent_id : String
  pub bid_id : String
  pub created_at : ℕ
  pub deadline : ℕ
  pub intent_data : Bytes
  pub intent_type : String

pub record MatcherIntentUpdate : Type 0 where
  pub intent_id : String
  pub update_type : String
  pub timestamp : ℕ

-- A buffered channel.
pub record Channel (A : Type 0) : Type 0 where
  pub capacity : ℕ
  pub queue : List A

pub record Config : Type 0 where
  pub matcher_id : String
  pub bidding_window_sec : ℕ
  pub enable_chain_submit : Bool

-- `address` is `signer.GetAddress()`; of the two clients only their presence is kept.
pub record Server : Type 0 where
  pub cfg : Config
  pub address : String
  pub has_rootlayer_client : Bool
  pub has_sdk_client : Bool
  pub allow_unverified : Bool
  pub intents : Map String IntentWithWindow
  pub bids_by_intent : Map String (List Bid)
  pub matching_results : Map String MatchingResult
  pub assignments : Map String Assignment
  pub pending_assignments : Map String PendingAssignment
  pub assignment_agents : Map String String
  pub intent_streams : Map String (Channel MatcherIntentUpdate)
  pub agent_tasks : Map String (Channel ExecutionTask)

-- `sign` hashes a message and signs it; `sdk_sign` signs an assignment's four identifiers, and
-- reads them as 32 bytes first.
pub record Services : Type 0 where
  pub trim_space : String → String
  pub format_int : ℕ → String
  pub sha256 : String → Bytes
  pub hex_text : Bytes → String
  pub sign : String → Option Bytes
  pub sdk_sign : String → String → String → String → Option Bytes

-- The clock while an assignment is made, the answers of the chain and the root layer to it, and
-- the clock when one of them refused.
pub record Attempt : Type 0 where
  pub unix : ℕ
  pub unix_nano : ℕ
  pub chain_accepts : Bool
  pub rootlayer_accepts : Bool
  pub failed_at : ℕ

unfoldable pub new_server : Config → String → Bool → Bool → Bool → Server
new_server cfg address has_rootlayer_client has_sdk_client allow_unverified = record {
  cfg = cfg;
  address = address;
  has_rootlayer_client = has_rootlayer_client;
  has_sdk_client = has_sdk_client;
  allow_unverified = allow_unverified;
  intents = [];
  bids_by_intent = [];
  matching_results = [];
  assignments = [];
  pending_assignments = [];
  assignment_agents = [];
  intent_streams = [];
  agent_tasks = [];
}
