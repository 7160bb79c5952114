-- ===== src/Matcher/Matching.antt =====
-- internal/matcher/server.go: the closing of windows, the matching of an intent and the assignment
-- of its winner. A strategy is a function of the intent and its bids; `none` is its error. A signer
-- that fails leaves an empty signature.
use subnet.Prelude.{
  ℕ, String, Bool, true, not, ◌&&◌, ◌||◌, Option, none, some, List, [], ◌∷◌, map, leb, text_Eq,
  ◌==◌, if◌then◌else◌, value_or, is_empty,
}
use Prim.Native.String.{◌++◌ as append}
use text.Mathlib.Text.{starts_with}
use subnet.Map.{Map, lookup, insert}
use subnet.Bytes.{Bytes}
use subnet.Matcher.{
  Bid, Intent, IntentWithWindow, MatchingResult, Assignment, ExecutionTask, Server, Services,
  Attempt,
}
use subnet.Matcher.Windows.{try_send, broadcast_intent_update, handle_assignment_failure}
use subnet.Matcher.Submission.{extract_chain_address}

abbrev pub Selection : Type 0
Selection = Intent → List Bid → Option (Bid × List Bid)

infix 60 ◌∶◌
abbrev ◌∶◌ : String → String → String
a ∶ b = append a (append ":" b)

unfoldable pub send_task_to_agent : Server → String → ExecutionTask → Server
send_task_to_agent s agent task = elim (lookup agent s.agent_tasks) [
  | none ↦ s
  | some c ↦ record s { agent_tasks = insert agent (try_send task c) s.agent_tasks }
]

unfoldable pub sign_matching_result :
    Services → Server → ℕ → String → String → String → Option Bytes
sign_matching_result v s unix id bid_id agent_id =
    v.sign ((((s.cfg.matcher_id ∶ id) ∶ bid_id) ∶ agent_id) ∶ v.format_int unix)

unfoldable pub sign_assignment :
    Services → Server → ℕ → String → String → String → String → Option Bytes
sign_assignment v s unix assignment_id id bid_id agent =
    if s.has_sdk_client
    then v.sdk_sign assignment_id id bid_id agent
    else v.sign (((((s.cfg.matcher_id ∶ assignment_id) ∶ id) ∶ bid_id) ∶ agent) ∶ v.format_int unix)

unfoldable pub new_assignment_id : Services → ℕ → String → String → String
new_assignment_id v unix_nano id bid_id =
    append "0x" (v.hex_text (v.sha256 ((id ∶ bid_id) ∶ v.format_int unix_nano)))

unfoldable pub compute_result_hash : Services → ℕ → String → String → Bytes
compute_result_hash v unix_nano bid_id agent_id =
    v.sha256 ((bid_id ∶ agent_id) ∶ v.format_int unix_nano)

-- `agentChainAddress == "" || !strings.HasPrefix(agentChainAddress, "0x")`, negated.
unfoldable pub is_chain_address : String → Bool
is_chain_address address = not (address == "" || not (starts_with address "0x"))

abbrev pub root_assignment :
    Services → Attempt → Server → String → String → Bid → String → Assignment
root_assignment v call s assignment_id id bid address = record {
  assignment_id = assignment_id;
  intent_id = id;
  agent_id = address;
  bid_id = bid.bid_id;
  matcher_id = s.address;
  signature = value_or [] (sign_assignment v s call.unix assignment_id id bid.bid_id address);
}

abbrev pub execution_task : Attempt → String → String → Bid → Intent → ExecutionTask
execution_task call assignment_id id bid intent = record {
  task_id = assignment_id;
  intent_id = id;
  agent_id = bid.agent_id;
  bid_id = bid.bid_id;
  created_at = call.unix;
  deadline = intent.deadline;
  intent_data = value_or [] intent.params;
  intent_type = intent.intent_type;
}

abbrev pub store_pending : Attempt → Server → Assignment → Bid → Intent → Server
store_pending call s assignment bid intent = record s {
  pending_assignments =
      insert assignment.assignment_id
        (record { assignment = assignment; created_at = call.unix_nano; intent = intent })
        s.pending_assignments;
  assignment_agents = insert assignment.assignment_id bid.agent_id s.assignment_agents;
}

-- The chain first, then the root layer, then the agent.
unfoldable pub submit_assignment : Attempt → Server → String → ExecutionTask → Server
submit_assignment call s id task =
    if s.cfg.enable_chain_submit && s.has_sdk_client && not call.chain_accepts
    then handle_assignment_failure call.failed_at s id task.task_id
    else if s.has_rootlayer_client && call.rootlayer_accepts
    then send_task_to_agent s task.agent_id task
    else handle_assignment_failure call.failed_at s id task.task_id

unfoldable pub create_assignment : Services → Attempt → Server → String → Bid → Server
create_assignment v call s id bid =
    let assignment_id = new_assignment_id v call.unix_nano id bid.bid_id in
    let address = extract_chain_address v bid in
    elim (lookup id s.intents) [
      | none ↦ s
      | some window ↦
          if is_chain_address address
          then submit_assignment call
              (store_pending call s (root_assignment v call s assignment_id id bid address) bid
                window.intent)
              id (execution_task call assignment_id id bid window.intent)
          else s
    ]

abbrev pub set_matched : Server → String → IntentWithWindow → Server
set_matched s id window = record s {
  intents = insert id (record window { matched = true }) s.intents;
}

abbrev pub matching_result : Services → Attempt → Server → String → Bid → List Bid → MatchingResult
matching_result v call s id winner runner_ups = record {
  matcher_id = s.cfg.matcher_id;
  intent_id = id;
  winning_bid_id = winner.bid_id;
  winning_agent_id = winner.agent_id;
  runner_up_bid_ids = map (λ bid. bid.bid_id) runner_ups;
  matched_at = call.unix;
  matching_reason = "Lowest price";
  result_hash = compute_result_hash v call.unix_nano winner.bid_id winner.agent_id;
  matcher_signature =
      value_or [] (sign_matching_result v s call.unix id winner.bid_id winner.agent_id);
}

abbrev pub store_result :
    Services → Attempt → Server → String → IntentWithWindow → Bid → List Bid → Server
store_result v call s id window winner runner_ups = record (set_matched s id window) {
  matching_results = insert id (matching_result v call s id winner runner_ups) s.matching_results;
}

-- The window is the one that the intent has.
unfoldable pub perform_matching :
    Services → Selection → Attempt → Server → String → IntentWithWindow → Server
perform_matching v select call s id window =
    let bids = value_or [] (lookup id s.bids_by_intent) in
    if is_empty bids then set_matched s id window else (elim (select window.intent bids) [
      | none ↦ set_matched s id window
      | some (winner, runner_ups) ↦
          broadcast_intent_update call.unix
            (create_assignment v call (store_result v call s id window winner runner_ups) id winner)
            id "MATCHED"
    ])

abbrev pub set_closed : Server → String → IntentWithWindow → Server
set_closed s id window = record s {
  intents = insert id (record window { window_closed = true }) s.intents;
}

abbrev pub close_window :
    Services → Selection → Attempt → ℕ → Server → String → IntentWithWindow → Server
close_window v select call now s id window =
    broadcast_intent_update now
      (perform_matching v select call (set_closed s id window) id
        (record window { window_closed = true }))
      id "WINDOW_CLOSED"

-- One round of the loop over the intents. Every intent has its own attempt.
unfoldable pub check_window :
    Services → Selection → (String → Attempt) → ℕ → Server → String → Server
check_window v select calls now s id = elim (lookup id s.intents) [
  | none ↦ s
  | some window ↦
      if window.window_closed || window.matched
      then s
      else if leb window.bidding_end_time now
      then close_window v select (calls id) now s id window
      else s
]

unfoldable pub check_windows :
    Services → Selection → (String → Attempt) → ℕ → Server → List String → Server
check_windows v select calls now s [] = s
check_windows v select calls now s (id ∷ ids) =
    check_windows v select calls now (check_window v select calls now s id) ids

abbrev pub keys : {A : Type 0} → Map String A → List String
keys [] = []
keys ((k, a) ∷ m) = k ∷ keys m

-- Only the entry of the intent at hand changes while the map is walked.
unfoldable pub check_and_close_windows :
    Services → Selection → (String → Attempt) → ℕ → Server → Server
check_and_close_windows v select calls now s = check_windows v select calls now s (keys s.intents)
