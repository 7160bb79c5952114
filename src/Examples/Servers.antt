-- ===== src/Examples/Servers.antt =====
-- A matcher with two bids on an intent.
use subnet.Prelude.{
  ℕ, zero, suc, ◌<◌, String, ◌≡◌, refl, true, false, none, some, [], ◌∷◌, arith, nat_eq, text_Eq,
  All,
}
use subnet.Map.{lookup, insert, delete}
use subnet.Map.Each.{Each}
use subnet.Matcher.{
  BidStatus, Bid, Intent, IntentWithWindow, Config, Server, Services, Attempt, new_server,
}
use subnet.Matcher.Windows.{
  add_intent, intent_expired, broadcast_intent_update, send_all, open_window,
  handle_assignment_failure, cleanup_pending_assignment, reset_intent_window,
}
use subnet.Matcher.Submission.{
  SubmitBidBatchResponse, submit_bid_batch, process_bids, go_on, process_single_bid, verify_bid,
  record_bid, extract_chain_address,
}
use subnet.Matcher.Strategy.{select_winner}
use subnet.Matcher.Matching.{
  Selection, perform_matching, check_and_close_windows, check_windows, check_window,
  create_assignment, is_chain_address, submit_assignment,
}
use subnet.Matcher.Tasks.{next_best}
use subnet.Matcher.Selection.{Selected, select_winner-Selected, select_winner-IsCheapestFirst}
use subnet.Matcher.Batches.{Answered, verdicts, welcomes, ends, submit_bid_batch_lem}
use subnet.Matcher.Deadlines.Checked.{check_and_close_windows_lem}
use subnet.Matcher.Fates.{Fate, perform_matching-Fate}
use subnet.Matcher.RunnerUps.{IsCandidate, IsFloor, next_best_lem}
use subnet.Matcher.Invariant.{IsSettledWindow, Inv}
use subnet.Matcher.Invariant.Answers.{Stands}
use subnet.Matcher.Invariant.Steps.{
  Reach, adds, bids_in_batch, closes, here, next, new_server-Reach,
}
use subnet.Examples.Sorting.{sort_bids, insert_bid, by_insertion}

abbrev services : Services
services = record {
  trim_space = λ s. s;
  format_int = λ n. "0";
  sha256 = λ s. 7 ∷ [];
  hex_text = λ bs. "07";
  sign = λ s. some (1 ∷ []);
  sdk_sign = λ a b c d. none;
}

abbrev config : Config
config = record { matcher_id = "m"; bidding_window_sec = 10; enable_chain_submit = false }

abbrev intent : Intent
intent = record {
  intent_id = "i";
  intent_type = "t";
  params = none;
  deadline = 100;
  intent_expiration = 0;
}

abbrev bid_of : String → String → ℕ → Bid
bid_of id agent price = record {
  bid_id = id;
  intent_id = "i";
  agent_id = agent;
  price = price;
  status = BidStatus.submitted;
  metadata = [];
}

abbrev cheap : Bid
cheap = bid_of "b" "0xb" 3

abbrev dear : Bid
dear = bid_of "a" "0xa" 5

-- The root layer refuses, at a second when the intent is not yet past its deadline.
abbrev refusal : Attempt
refusal = record {
  unix = 20;
  unix_nano = 20000000000;
  chain_accepts = true;
  rootlayer_accepts = false;
  failed_at = 21;
}

abbrev select : Selection
select = select_winner by_insertion

abbrev fresh : Server
fresh = new_server config "0xm" true false true

abbrev opened : Server
opened = (add_intent 5 fresh (some intent)).0

abbrev undisturbed : ℕ → Server → Server
undisturbed k s = s

abbrev offered : Server
offered = (submit_bid_batch services none (λ k. 6) undisturbed opened (dear ∷ cheap ∷ []) none).0

abbrev checked : Server
checked = check_and_close_windows services select (λ id. refusal) 15 offered

path : Reach services none select fresh checked
path =
    next (next (next here (adds 5 (some intent))) (bids_in_batch (λ k. 6) (dear ∷ cheap ∷ []) none))
      (closes (λ id. refusal) 15)

new_server-Reach_example : Inv checked
new_server-Reach_example =
    new_server-Reach services none select config "0xm" true false true checked
      (select_winner-IsCheapestFirst by_insertion) path

select_winner-Selected_example :
    Selected (dear ∷ cheap ∷ []) (select_winner by_insertion intent (dear ∷ cheap ∷ []))
select_winner-Selected_example = select_winner-Selected by_insertion intent (dear ∷ cheap ∷ [])

-- Behind the first bid the intent is dropped.
abbrev closing : ℕ → Server → Server
closing zero s = s
closing (suc k) s = record s { intents = delete "i" s.intents }

submit_bid_batch_lem_example :
    (submit_bid_batch services none (λ k. 6) closing opened [] none ≡ (opened, none))
    × ((r : SubmitBidBatchResponse) × ((submit_bid_batch services none
            (λ k. 6)
            closing
            opened
            (dear ∷ cheap ∷ [])
            none).1
          ≡ some r)
        × Answered services none
            (dear ∷ cheap ∷ [])
            (verdicts false (welcomes services none closing 0 opened (dear ∷ cheap ∷ [])))
            (ends services none closing false 0 opened (dear ∷ cheap ∷ []))
            (
              (submit_bid_batch services none (λ k. 6) closing opened (dear ∷ cheap ∷ []) none).0,
              r,
            ))
submit_bid_batch_lem_example =
    submit_bid_batch_lem services none (λ k. 6) closing opened none dear (cheap ∷ [])

abbrev window : IntentWithWindow
window = open_window 5 10 intent

perform_matching-Fate_example :
    Fate services select refusal offered "i" window
      (perform_matching services select refusal offered "i" window)
perform_matching-Fate_example = perform_matching-Fate services select refusal offered "i" window

next_best_lem_example :
    Stands (dear ∷ cheap ∷ []) (next_best "0xb" 0 none (dear ∷ cheap ∷ []))
    × IsCandidate "0xb" (next_best "0xb" 0 none (dear ∷ cheap ∷ []))
    × All (IsFloor "0xb" (next_best "0xb" 0 none (dear ∷ cheap ∷ []))) (dear ∷ cheap ∷ [])
next_best_lem_example = next_best_lem "0xb" (dear ∷ cheap ∷ [])

abbrev reopened_window : IntentWithWindow
reopened_window = open_window 21 10 intent

reopened : lookup "i" checked.intents ≡ some reopened_window
unfolding lookup insert delete new_server add_intent intent_expired broadcast_intent_update send_all
    submit_bid_batch process_bids go_on process_single_bid verify_bid record_bid
    check_and_close_windows check_windows check_window perform_matching create_assignment
    extract_chain_address is_chain_address select_winner sort_bids insert_bid submit_assignment
    handle_assignment_failure cleanup_pending_assignment reset_intent_window
reopened = refl

settled : Each IsSettledWindow offered.intents
settled =
    (new_server-Reach services none select config "0xm" true false true offered
      (select_winner-IsCheapestFirst by_insertion)
      (next (next here (adds 5 (some intent)))
        (bids_in_batch (λ k. 6) (dear ∷ cheap ∷ []) none))).windows

positive : 0 < offered.cfg.bidding_window_sec
unfolding new_server add_intent lookup intent_expired broadcast_intent_update submit_bid_batch
    process_bids go_on process_single_bid verify_bid record_bid insert
positive = omega arith

check_and_close_windows_lem_example : 15 < reopened_window.bidding_end_time
check_and_close_windows_lem_example =
    check_and_close_windows_lem services select (λ id. refusal) 15 offered "i" reopened_window
      (λ other. omega arith) positive settled reopened refl
