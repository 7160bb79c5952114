-- ===== src/Assignments.antt =====
-- internal/matcher/assignment_manager.go: assignments, their runner-ups and the queue to the agents.
-- An assignment is an object that the map and its callers share, so `SendToAgent` takes the
-- identifier of one that the map holds. `now` is the clock, in seconds and in nanoseconds; times are
-- not negative. `SendToAgent` is one step, though it gives the lock back while it sends.
-- The signer answers the hexadecimal signature of a message, an empty one where it
-- fails or is missing. A connection answers whether it is up and whether it takes an assignment.
pub mod Laws
use subnet.Prelude.{
  ℕ, suc, ◌+◌, String, Bool, true, false, not, ◌&&◌, Option, none, some, List, [], ◌∷◌, ◌++◌, ltb,
  nat_eq, text_Eq, ◌==◌, if◌then◌else◌, value_or, is_empty,
}
use Prim.Native.String.{◌++◌ as append}
use subnet.Map.{Map, lookup, insert, delete}
use subnet.Bids.{Bid}

pub data Status : Type 0 where
  pending : Status
  sent : Status
  active : Status
  rejected : Status

pub record Assignment : Type 0 where
  pub assignment_id : String
  pub intent_id : String
  pub agent_id : String
  pub bid_id : String
  pub assigned_at : ℕ
  pub lease_ttl : ℕ
  pub status : Status
  pub matcher_id : String
  pub signature : String

pub record MatchingResult : Type 0 where
  pub intent_id : String
  pub winning_bid : Option Bid
  pub winning_agent_id : String
  pub runner_up_bids : List Bid
  pub matched_at : ℕ
  pub matcher_id : String

pub record AgentConnection : Type 0 where
  pub is_connected : Bool
  pub takes : Assignment → Bool

pub record Signer : Type 0 where
  pub sign : String → String
  pub format_int : ℕ → String

pub record AssignmentManager : Type 0 where
  pub matcher_id : String
  pub assignments : Map String Assignment
  pub assignments_by_intent : Map String String
  pub assignments_by_agent : Map String (List String)
  pub runner_ups : Map String (List Bid)
  pub agent_connections : Map String AgentConnection
  pub pending_queue : List String

pub data AssignmentError : Type 0 where
  no_connection : AssignmentError
  not_connected : AssignmentError
  failed_to_send : AssignmentError
  not_found : AssignmentError
  wrong_agent : AssignmentError
  no_runner_ups : AssignmentError

unfoldable pub new_assignment_manager : String → AssignmentManager
new_assignment_manager matcher_id = record {
  matcher_id = matcher_id;
  assignments = [];
  assignments_by_intent = [];
  assignments_by_agent = [];
  runner_ups = [];
  agent_connections = [];
  pending_queue = [];
}

-- The clock in seconds and in nanoseconds.
abbrev pub Clock : Type 0
Clock = ℕ × ℕ

unfoldable pub generate_assignment_id : Signer → ℕ → String → String → String
generate_assignment_id v nano intent_id agent_id =
    append "assign_"
      (append intent_id (append "_" (append agent_id (append "_" (v.format_int nano)))))

abbrev pub message_of : Signer → String → String → String → ℕ → String
message_of v id intent_id agent_id at =
    append id
      (append ":" (append intent_id (append ":" (append agent_id (append ":" (v.format_int at))))))

abbrev pub new_assignment : Signer → Clock → String → String → String → String → Assignment
new_assignment v now intent_id agent_id bid_id matcher_id =
    let id = generate_assignment_id v now.1 intent_id agent_id in
    record {
      assignment_id = id;
      intent_id = intent_id;
      agent_id = agent_id;
      bid_id = bid_id;
      assigned_at = now.0;
      lease_ttl = 300;
      status = pending;
      matcher_id = matcher_id;
      signature = v.sign (message_of v id intent_id agent_id now.0);
    }

abbrev pub store : AssignmentManager → Assignment → AssignmentManager
store m a = record m {
  assignments = insert a.assignment_id a m.assignments;
  assignments_by_intent = insert a.intent_id a.assignment_id m.assignments_by_intent;
  assignments_by_agent =
      insert a.agent_id
        (value_or [] (lookup a.agent_id m.assignments_by_agent) ++ (a.assignment_id ∷ []))
        m.assignments_by_agent;
  pending_queue = m.pending_queue ++ (a.assignment_id ∷ []);
}

abbrev pub keep_runner_ups : AssignmentManager → MatchingResult → AssignmentManager
keep_runner_ups m result =
    if is_empty result.runner_up_bids
    then m
    else record m { runner_ups = insert result.intent_id result.runner_up_bids m.runner_ups }

-- An intent that has an assignment gets that one, or nil if it is gone.
unfoldable pub create_assignment :
    Signer
    → Clock
    → AssignmentManager
    → Option MatchingResult
    → AssignmentManager × Option Assignment
create_assignment v now m none = (m, none)
create_assignment v now m (some result) = elim result.winning_bid [
  | none ↦ (m, none)
  | some bid ↦ elim (lookup result.intent_id m.assignments_by_intent) [
    | some existing ↦ (m, lookup existing m.assignments)
    | none ↦
        let a =
          new_assignment v now result.intent_id result.winning_agent_id bid.bid_id
            result.matcher_id in
        (keep_runner_ups (store m a) result, some a)
  ]
]

abbrev pub set_status : AssignmentManager → Assignment → Status → AssignmentManager
set_status m a status = record m {
  assignments = insert a.assignment_id (record a { status = status }) m.assignments;
}

unfoldable pub send_to_agent :
    AssignmentManager → Assignment → AssignmentManager × Option AssignmentError
send_to_agent m a = elim (lookup a.agent_id m.agent_connections) [
  | none ↦ (m, some no_connection)
  | some conn ↦
      if not conn.is_connected
      then (m, some not_connected)
      else if conn.takes a
      then (set_status m a sent, none)
      else (m, some failed_to_send)
]

unfoldable pub remove_from_queue : String → List String → List String
remove_from_queue id [] = []
remove_from_queue id (x ∷ xs) =
    let rest = remove_from_queue id xs in if x == id then rest else x ∷ rest

unfoldable pub confirm_assignment :
    AssignmentManager → String → String → AssignmentManager × Option AssignmentError
confirm_assignment m id agent_id = elim (lookup id m.assignments) [
  | none ↦ (m, some not_found)
  | some a ↦
      if a.agent_id == agent_id
      then (
        record m {
          assignments = insert id (record a { status = active }) m.assignments;
          pending_queue = remove_from_queue id m.pending_queue;
        },
        none,
      )
      else (m, some wrong_agent)
]

-- The first runner-up of an intent gets an assignment.
unfoldable pub activate_runner_up :
    Signer → Clock → AssignmentManager → String → AssignmentManager × Option AssignmentError
activate_runner_up v now m intent_id = elim (value_or [] (lookup intent_id m.runner_ups)) [
  | [] ↦ (m, some no_runner_ups)
  | next ∷ rest ↦ (
    store (record m { runner_ups = insert intent_id rest m.runner_ups })
        (new_assignment v now intent_id next.agent_id next.bid_id m.matcher_id),
    none,
  )
]

unfoldable pub handle_rejection :
    Signer → Clock → AssignmentManager → String → AssignmentManager × Option AssignmentError
handle_rejection v now m id = elim (lookup id m.assignments) [
  | none ↦ (m, some not_found)
  | some a ↦
      activate_runner_up v now
        (record m { assignments = insert id (record a { status = rejected }) m.assignments })
        a.intent_id
]

abbrev is_pending : Status → Bool
is_pending pending = true
is_pending _ = false

abbrev is_waiting : Status → Bool
is_waiting pending = true
is_waiting sent = true
is_waiting _ = false

abbrev is_rejected : Status → Bool
is_rejected rejected = true
is_rejected _ = false

unfoldable pending_from : Map String Assignment → List String → List Assignment
pending_from assignments [] = []
pending_from assignments (id ∷ ids) =
    let rest = pending_from assignments ids in
    elim (lookup id assignments) [
      | none ↦ rest
      | some a ↦ if is_pending a.status then a ∷ rest else rest
    ]

unfoldable get_pending_assignments : AssignmentManager → List Assignment
get_pending_assignments m = pending_from m.assignments m.pending_queue

unfoldable count_waiting : Map String Assignment → ℕ
count_waiting [] = 0
count_waiting ((id, a) ∷ rest) =
    let n = count_waiting rest in if is_waiting a.status then suc n else n

unfoldable pending_count : AssignmentManager → ℕ
pending_count m = count_waiting m.assignments

unfoldable pub register_agent_connection :
    AssignmentManager → String → AgentConnection → AssignmentManager
register_agent_connection m agent_id conn = record m {
  agent_connections = insert agent_id conn m.agent_connections;
}

unfoldable pub unregister_agent_connection : AssignmentManager → String → AssignmentManager
unregister_agent_connection m agent_id = record m {
  agent_connections = delete agent_id m.agent_connections;
}

-- `AssignedAt < now - olderThan`, and rejected; the code names a status EXPIRED that it never sets.
abbrev pub is_stale : ℕ → ℕ → Assignment → Bool
is_stale now older_than a = ltb (a.assigned_at + older_than) now && is_rejected a.status

-- The entries that the loop walks, and the number of those removed.
unfoldable pub cleanup_entries :
    ℕ → ℕ → AssignmentManager → Map String Assignment → AssignmentManager × ℕ
cleanup_entries now older_than m [] = (m, 0)
cleanup_entries now older_than m ((id, a) ∷ rest) =
    let without = record m {
      assignments = delete id m.assignments;
      assignments_by_intent = delete a.intent_id m.assignments_by_intent;
    } in
    let removed = cleanup_entries now older_than without rest in
    let kept = cleanup_entries now older_than m rest in
    if is_stale now older_than a then (removed.0, suc removed.1) else kept

unfoldable pub cleanup_expired : ℕ → ℕ → AssignmentManager → AssignmentManager × ℕ
cleanup_expired now older_than m = cleanup_entries now older_than m m.assignments
