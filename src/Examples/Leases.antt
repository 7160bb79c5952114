-- ===== src/Examples/Leases.antt =====
-- An assignment manager with one intent, its winner and one runner-up.
use subnet.Prelude.{String, ◌≡◌, refl, none, some, [], ◌∷◌, text_Eq, value_or}
use subnet.Map.{lookup, insert}
use subnet.Bids.{Bid}
use subnet.Assignments.{
  Assignment, Status, MatchingResult, Signer, AssignmentManager, new_assignment_manager,
  generate_assignment_id, create_assignment, confirm_assignment, handle_rejection, cleanup_expired,
}
use subnet.Assignments.Laws.{Inv}
use subnet.Assignments.Laws.Calls.{here, next, creates, confirms, cleans, new_manager-Reach}
use subnet.Assignments.Laws.Late.{successor, confirm_after_rejection}

abbrev unsigned : Signer
unsigned = record { sign = λ message. ""; format_int = λ n. "7" }

abbrev bid_by : String → Bid
bid_by agent = record {
  bid_id = "b";
  intent_id = "i";
  agent_id = agent;
  price = 5;
  submitted_at = 1;
  signature = "";
}

abbrev matched : MatchingResult
matched = record {
  intent_id = "i";
  winning_bid = some (bid_by "x");
  winning_agent_id = "x";
  runner_up_bids = bid_by "y" ∷ [];
  matched_at = 99;
  matcher_id = "m";
}

abbrev assigned : AssignmentManager
assigned = (create_assignment unsigned (100, 100) (new_assignment_manager "m") (some matched)).0

abbrev given : Assignment
given = record {
  assignment_id = "assign_i_x_7";
  intent_id = "i";
  agent_id = "x";
  bid_id = "b";
  assigned_at = 100;
  lease_ttl = 300;
  status = Status.pending;
  matcher_id = "m";
  signature = "";
}

abbrev confirmed_and_cleaned : AssignmentManager
confirmed_and_cleaned =
    (cleanup_expired 500 10 (confirm_assignment assigned "assign_i_x_7" "x").0).0

given_is_held : lookup "assign_i_x_7" assigned.assignments ≡ some given
unfolding create_assignment new_assignment_manager generate_assignment_id lookup insert
given_is_held = refl

y_waits : value_or [] (lookup "i" assigned.runner_ups) ≡ bid_by "y" ∷ []
unfolding create_assignment new_assignment_manager lookup insert
y_waits = refl

y_is_fresh : lookup "assign_i_y_7" assigned.assignments ≡ none
unfolding create_assignment new_assignment_manager generate_assignment_id lookup insert
y_is_fresh = refl

new_manager-Reach_example : Inv confirmed_and_cleaned
unfolding new_assignment_manager lookup generate_assignment_id
new_manager-Reach_example = new_manager-Reach unsigned "m" confirmed_and_cleaned (
    next (next (next here (creates (100, 100) matched refl)) (confirms "assign_i_x_7" "x"))
      (cleans 500 10))

confirm_after_rejection_example :
    (m' : AssignmentManager) × (confirm_assignment
        (handle_rejection unsigned (200, 200) assigned "assign_i_x_7").0
        "assign_i_x_7"
        "x"
      ≡ (m', none))
    × (lookup "assign_i_x_7" m'.assignments ≡ some (record given { status = Status.active }))
    × (lookup "assign_i_y_7" m'.assignments
        ≡ some (successor unsigned (200, 200) assigned "assign_i_x_7" given (bid_by "y") []))
    × (lookup "i" m'.assignments_by_intent ≡ some "assign_i_y_7")
unfolding generate_assignment_id
confirm_after_rejection_example =
    confirm_after_rejection unsigned (200, 200) assigned "assign_i_x_7" given (bid_by "y") []
      given_is_held y_waits y_is_fresh
