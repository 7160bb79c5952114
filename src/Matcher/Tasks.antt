-- ===== src/Matcher/Tasks.antt =====
-- internal/matcher/server.go: the agents' answers, the runner-up, and the read operations.
use subnet.Prelude.{
  ℕ, suc, String, Bool, true, false, not, ◌&&◌, Option, none, some, List, [], ◌∷◌, ltb, text_Eq,
  ◌==◌, if◌then◌else◌, value_or, is_some, set,
}
use subnet.Map.{Map, lookup, insert, delete}
use subnet.Matcher.{
  BidStatus, Bid, Intent, MatchingResult, Assignment, PendingAssignment, Server, Services, Attempt,
}
use subnet.Matcher.Matching.{create_assignment}

pub data Response : Type 0 where
  task_not_found : Response
  task_accepted : Response
  rejection_recorded : Response

-- What a rejection starts in the background: the intent and the agent to leave out.
abbrev pub Reassignment : Type 0
Reassignment = Intent × String

abbrev pub confirm : Server → String → PendingAssignment → Server
confirm s task_id pending = record s {
  assignments = insert task_id pending.assignment s.assignments;
  pending_assignments = delete task_id s.pending_assignments;
}

unfoldable pub respond_to_task :
    Server → String → String → Bool → Server × Response × Option Reassignment
respond_to_task s task_id agent_id agreed = elim (lookup task_id s.pending_assignments) [
  | none ↦ (s, task_not_found, none)
  | some pending ↦ if agreed then (confirm s task_id pending, task_accepted, none) else (
    record s { pending_assignments = delete task_id s.pending_assignments },
    rejection_recorded,
    some (pending.intent, agent_id),
  )
]

abbrev pub is_submitted : BidStatus → Bool
is_submitted BidStatus.submitted = true
is_submitted _ = false

abbrev pub is_candidate : String → Bid → Bool
is_candidate excluded bid = not (bid.agent_id == excluded) && is_submitted bid.status

-- The best bid so far, by its position.
abbrev pub cheaper : ℕ → Bid → Option (ℕ × Bid) → Option (ℕ × Bid)
cheaper i bid none = some (i, bid)
cheaper i bid (some (j, best)) = if ltb bid.price best.price then some (i, bid) else some (j, best)

unfoldable pub next_best : String → ℕ → Option (ℕ × Bid) → List Bid → Option (ℕ × Bid)
next_best excluded i best [] = best
next_best excluded i best (bid ∷ bids) =
    let updated = cheaper i bid best in
    next_best excluded (suc i) (if is_candidate excluded bid then updated else best) bids

abbrev pub mark_winner : Server → String → List Bid → ℕ → Bid → Server
mark_winner s id bids i bid = record s {
  bids_by_intent =
      insert id (set bids i (record bid { status = BidStatus.winner })) s.bids_by_intent;
}

unfoldable pub try_assign_to_runner_up : Services → Attempt → Server → Intent → String → Server
try_assign_to_runner_up v call s intent excluded =
    let bids = value_or [] (lookup intent.intent_id s.bids_by_intent) in
    elim (next_best excluded 0 none bids) [
      | none ↦ s
      | some (i, bid) ↦
          let marked = mark_winner s intent.intent_id bids i bid in
          if is_some (lookup intent.intent_id s.intents)
          then create_assignment v call marked intent.intent_id
              (record bid { status = BidStatus.winner })
          else marked
    ]

unfoldable pub register_agent_for_tasks : Server → String → Server
register_agent_for_tasks s agent_id =
    if is_some (lookup agent_id s.agent_tasks) then s else record s {
      agent_tasks = insert agent_id (record { capacity = 10; queue = [] }) s.agent_tasks;
    }

unfoldable pub unregister_agent_for_tasks : Server → String → Server
unregister_agent_for_tasks s agent_id = record s { agent_tasks = delete agent_id s.agent_tasks }

unfoldable get_matching_result : Server → String → Option MatchingResult
get_matching_result s id = lookup id s.matching_results

unfoldable find_assignment : String → Map String Assignment → Option Assignment
find_assignment id [] = none
find_assignment id ((k, a) ∷ rest) =
    let later = find_assignment id rest in if a.intent_id == id then some a else later

unfoldable find_pending : String → Map String PendingAssignment → Option Assignment
find_pending id [] = none
find_pending id ((k, p) ∷ rest) =
    let later = find_pending id rest in
    if p.assignment.intent_id == id then some p.assignment else later

unfoldable get_assignment : Server → String → Option Assignment
get_assignment s id = elim (find_assignment id s.assignments) [
  | some a ↦ some a
  | none ↦ find_pending id s.pending_assignments
]

pub record IntentBidSnapshot : Type 0 where
  pub intent_id : String
  pub bids : List Bid
  pub bidding_start_time : ℕ
  pub bidding_end_time : ℕ
  pub bidding_closed : Bool

pub data SnapshotAnswer : Type 0 where
  intent_id_required : SnapshotAnswer
  empty_answer : SnapshotAnswer
  answer : IntentBidSnapshot → SnapshotAnswer

unfoldable get_intent_snapshot : Server → String → Bool → SnapshotAnswer
get_intent_snapshot s id include_closed =
    if id == "" then intent_id_required else (elim (lookup id s.intents) [
      | none ↦ empty_answer
      | some window ↦
          if not include_closed && window.window_closed
          then empty_answer
          else answer (record {
            intent_id = id;
            bids = value_or [] (lookup id s.bids_by_intent);
            bidding_start_time = window.bidding_start_time;
            bidding_end_time = window.bidding_end_time;
            bidding_closed = window.window_closed;
          })
    ])
