-- ===== src/Matcher/Windows.antt =====
-- internal/matcher/server.go: the bidding windows of intents, and the updates that streams receive.
use subnet.Prelude.{
  ℕ, ◌+◌, String, Bool, true, false, ◌&&◌, Option, none, some, [], ◌∷◌, ◌++◌, ltb, leb, nat_eq,
  text_Eq, ◌==◌, if◌then◌else◌, is_some, length,
}
use subnet.Map.{Map, lookup, insert, delete}
use subnet.Matcher.{Intent, IntentWithWindow, Channel, Server}

-- A send that is skipped when the channel is full.
unfoldable pub try_send : {A : Type 0} → A → Channel A → Channel A
try_send a c =
    if ltb (length c.queue) c.capacity then record c { queue = c.queue ++ (a ∷ []) } else c

unfoldable pub send_all : {A : Type 0} → A → Map String (Channel A) → Map String (Channel A)
send_all a [] = []
send_all a ((stream, c) ∷ rest) = (stream, try_send a c) ∷ send_all a rest

unfoldable pub broadcast_intent_update : ℕ → Server → String → String → Server
broadcast_intent_update now s id kind = record s {
  intent_streams =
      send_all (record { intent_id = id; update_type = kind; timestamp = now }) s.intent_streams;
}

unfoldable pub intent_expired : Intent → ℕ → Bool
intent_expired intent now =
    if ltb 0 intent.intent_expiration && leb intent.intent_expiration now
    then true
    else ltb 0 intent.deadline && leb intent.deadline now

pub data AddError : Type 0 where
  missing_intent : AddError
  already_exists : AddError

abbrev pub open_window : ℕ → ℕ → Intent → IntentWithWindow
open_window now seconds intent = record {
  intent = intent;
  bidding_start_time = now;
  bidding_end_time = now + seconds;
  window_closed = false;
  matched = false;
}

unfoldable pub add_intent : ℕ → Server → Option Intent → Server × Option AddError
add_intent now s none = (s, some missing_intent)
add_intent now s (some intent) =
    if intent.intent_id == ""
    then (s, some missing_intent)
    else if is_some (lookup intent.intent_id s.intents)
    then (s, some already_exists)
    else if intent_expired intent now
    then (s, none)
    else (
      broadcast_intent_update now
          (record s {
            intents =
                insert intent.intent_id (open_window now s.cfg.bidding_window_sec intent) s.intents;
            bids_by_intent = insert intent.intent_id [] s.bids_by_intent;
          })
          intent.intent_id "NEW_INTENT",
      none,
    )

unfoldable pub reset_intent_window : ℕ → Server → String → Server
reset_intent_window now s id = elim (lookup id s.intents) [
  | none ↦ s
  | some window ↦ record s {
    intents = insert id (open_window now s.cfg.bidding_window_sec window.intent) s.intents;
    matching_results = delete id s.matching_results;
  }
]

unfoldable pub drop_intent : Server → String → Server
drop_intent s id = record s {
  intents = delete id s.intents;
  bids_by_intent = delete id s.bids_by_intent;
  matching_results = delete id s.matching_results;
}

unfoldable pub cleanup_pending_assignment : Server → String → Server
cleanup_pending_assignment s assignment_id = record s {
  pending_assignments = delete assignment_id s.pending_assignments;
  assignment_agents = delete assignment_id s.assignment_agents;
}

abbrev pub give_up_or_retry : ℕ → Server → String → Server
give_up_or_retry now s id = elim (lookup id s.intents) [
  | none ↦ s
  | some window ↦
      if intent_expired window.intent now then drop_intent s id else reset_intent_window now s id
]

unfoldable pub handle_assignment_failure : ℕ → Server → String → String → Server
handle_assignment_failure now s id assignment_id =
    cleanup_pending_assignment (give_up_or_retry now s id) assignment_id
