-- ===== src/Matcher/Invariant/Calls.antt =====
-- The calls of clients, the closing of windows and the agents' answers keep the invariant.
use subnet.Prelude.{
  ℕ, suc, String, ◌≡◌, refl, sym, ap, subst, ◌∙◌, inl, inr, Bool, true, false, Option, none, some,
  List, [], ◌∷◌, ◌++◌, arith, text_Eq, ◌==◌, Bool-cases, Option-cases, value_or, some_eq, beq→eq,
  All-append,
}
use subnet.Map.{lookup, insert}
use subnet.Map.Each.{Each-insert}
use subnet.Matcher.{Bid, Intent, IntentWithWindow, MatchingResult, Server, Services}
use subnet.Matcher.Windows.{intent_expired, open_window, add_intent}
use subnet.Matcher.Submission.{
  append_bid, verify_bid, record_bid, process_single_bid, process_bids, go_on, submit_bid_batch,
}
use subnet.Matcher.Invariant.{IsSettledWindow, AreBidsOn, Inv}
use subnet.Matcher.Invariant.Writes.{other-results, untouched}
use subnet.Matcher.Invariant.Assigning.{broadcast-Inv}

-- An intent without a window has no result.
no_result :
    (s : Server) (id k : String) (r : MatchingResult)
    → Inv s
    → lookup id s.intents ≡ none
    → (id == k) ≡ true
    → lookup k s.matching_results ≡ some r
    → ⊥
no_result s id k r v e y f =
    let (w, g, m) = (v.results k r f).1 in
    ground (arith, sym (subst (λ j. lookup j s.intents ≡ none) (beq→eq id k y) e) ∙ g)

-- An open window has no result.
no_open_result :
    (s : Server) (id k : String) (w : IntentWithWindow) (r : MatchingResult)
    → Inv s
    → lookup id s.intents ≡ some w
    → w.matched ≡ false
    → (id == k) ≡ true
    → lookup k s.matching_results ≡ some r
    → ⊥
no_open_result s id k w r v e n y f =
    let (u, g, m) = (v.results k r f).1 in
    let same : w ≡ u =
      some_eq (sym (subst (λ j. lookup j s.intents ≡ some w) (beq→eq id k y) e) ∙ g) in
    ground (arith, sym (ap (λ x. x.matched) same) ∙ n, m)

add_fresh-Inv :
    (now : ℕ) (s : Server) (intent : Intent)
    → lookup intent.intent_id s.intents ≡ none
    → Inv s
    → Inv (record s {
      intents = insert intent.intent_id (open_window now s.cfg.bidding_window_sec intent) s.intents;
      bids_by_intent = insert intent.intent_id [] s.bids_by_intent;
    })
add_fresh-Inv now s intent e v =
    let id = intent.intent_id in
    let window = open_window now s.cfg.bidding_window_sec intent in
    record {
      windows = Each-insert IsSettledWindow id window s.intents refl v.windows;
      bids = Each-insert AreBidsOn id [] s.bids_by_intent tt v.bids;
      results =
          other-results id s.intents (insert id window s.intents) s.bids_by_intent
            (insert id [] s.bids_by_intent) s.matching_results
            (λ k d. untouched id k window s.intents d) (λ k d. untouched id k [] s.bids_by_intent d)
            (λ k r y f. no_result s id k r v e y f) v.results;
      pending = v.pending;
      confirmed = v.confirmed;
    }

pub add_intent-Inv : (now : ℕ) (s : Server) (o : Option Intent) → Inv s → Inv (add_intent now s o).0
unfolding add_intent
add_intent-Inv now s none v = v
add_intent-Inv now s (some intent) v = elim (Bool-cases (intent.intent_id == "")) [
  | inl y ↦ rw (add_intent, y) v
  | inr n ↦ elim (Option-cases (lookup intent.intent_id s.intents)) [
    | inr (w, y) ↦ rw (add_intent, n, y) v
    | inl m ↦ elim (Bool-cases (intent_expired intent now)) [
      | inl y ↦ rw (add_intent, n, m, y) v
      | inr d ↦
          rw (add_intent, n, m, d)
            (broadcast-Inv now _ intent.intent_id "NEW_INTENT" (add_fresh-Inv now s intent m v))
    ]
  ]
]

AreBidsOn-value :
    (id : String) (s : Server) (o : Option (List Bid))
    → lookup id s.bids_by_intent ≡ o
    → Inv s
    → AreBidsOn id (value_or [] o)
AreBidsOn-value id s none e v = tt
AreBidsOn-value id s (some bids) e v = v.bids id bids e

append_bid-Inv :
    (s : Server) (bid : Bid) (w : IntentWithWindow)
    → lookup bid.intent_id s.intents ≡ some w
    → w.window_closed ≡ false
    → Inv s
    → Inv (append_bid s bid)
append_bid-Inv s bid w e c v =
    let id = bid.intent_id in
    let old = value_or [] (lookup id s.bids_by_intent) in
    let new = old ++ (bid ∷ []) in
    record {
      windows = v.windows;
      bids =
          Each-insert AreBidsOn id new s.bids_by_intent
            (All-append (λ b. b.intent_id ≡ id) old (bid ∷ [])
              (AreBidsOn-value id s (lookup id s.bids_by_intent) refl v) (refl, tt))
            v.bids;
      results =
          other-results id s.intents s.intents s.bids_by_intent (insert id new s.bids_by_intent)
            s.matching_results (λ k d. refl) (λ k d. untouched id k new s.bids_by_intent d)
            (λ k r y f. no_open_result s id k w r v e (sym (v.windows id w e) ∙ c) y f) v.results;
      pending = v.pending;
      confirmed = v.confirmed;
    }

record_bid-Inv : (now : ℕ) (s : Server) (bid : Bid) → Inv s → Inv (record_bid now s bid).0
unfolding record_bid
record_bid-Inv now s bid v = elim (Option-cases (lookup bid.intent_id s.intents)) [
  | inl n ↦ rw (record_bid, n) v
  | inr (w, y) ↦ elim (Bool-cases w.window_closed) [
    | inl c ↦ rw (record_bid, y, c) v
    | inr o ↦ rw (record_bid, y, o) (append_bid-Inv s bid w y o v)
  ]
]

pub process-Inv :
    (v : Services) (verifier : Option (String → Option Bool)) (now : ℕ) (s : Server)
    (o : Option Bid)
    → Inv s
    → Inv (process_single_bid v verifier now s o).0
unfolding process_single_bid
process-Inv v verifier now s none h = h
process-Inv v verifier now s (some bid) h = elim (Option-cases (verify_bid v verifier s bid)) [
  | inl n ↦ rw (process_single_bid, n) (record_bid-Inv now s bid h)
  | inr (r, y) ↦ rw (process_single_bid, y) h
]

pub batch-Inv :
    (v : Services) (verifier : Option (String → Option Bool)) (clock : ℕ → ℕ)
    (others : ℕ → Server → Server) (partial_ok : Bool) (k : ℕ) (s : Server) (bids : List Bid)
    → ((j : ℕ) (t : Server) → Inv t → Inv (others j t))
    → Inv s
    → Inv (process_bids v verifier clock others partial_ok k s bids).0
unfolding process_bids go_on
batch-Inv v verifier clock others partial_ok k s [] keep h = h
batch-Inv v verifier clock others partial_ok k s (bid ∷ bids) keep h =
    let one = process_single_bid v verifier (clock k) (others k s) (some bid) in
    let first = process-Inv v verifier (clock k) (others k s) (some bid) (keep k s h) in
    let rest = batch-Inv v verifier clock others partial_ok (suc k) one.0 bids keep first in
    elim (Bool-cases one.1.accepted) [
      | inl y ↦ rw (process_bids, go_on, y) rest
      | inr n ↦ elim (Bool-cases partial_ok) [
        | inl y ↦ rw (process_bids, go_on, n, y) rest
        | inr m ↦ rw (process_bids, go_on, n, m) first
      ]
    ]

pub submit_bid_batch-Inv :
    (v : Services) (verifier : Option (String → Option Bool)) (clock : ℕ → ℕ)
    (others : ℕ → Server → Server) (s : Server) (bids : List Bid) (partial_ok : Option Bool)
    → ((j : ℕ) (t : Server) → Inv t → Inv (others j t))
    → Inv s
    → Inv (submit_bid_batch v verifier clock others s bids partial_ok).0
unfolding submit_bid_batch
submit_bid_batch-Inv v verifier clock others s [] partial_ok keep h = h
submit_bid_batch-Inv v verifier clock others s (bid ∷ bids) partial_ok keep h =
    batch-Inv v verifier clock others (value_or false partial_ok) 0 s (bid ∷ bids) keep h
