-- ===== src/Matcher/Invariant.antt =====
-- What holds of the server between calls: the parts of the invariant, and how the writes of the
-- maps keep them.
pub mod Writes
pub mod Assigning
pub mod Calls
pub mod Closing
pub mod Answers
pub mod Steps
use subnet.Prelude.{ℕ, ◌≤◌, String, ◌≡◌, true, some, List, [], text_Eq, value_or, is_some, All}
use subnet.Map.{Map, lookup}
use subnet.Map.Each.{Each}
use subnet.Matcher.{Bid, IntentWithWindow, MatchingResult, Assignment, PendingAssignment, Server}
use subnet.Matcher.Matching.{is_chain_address}
use subnet.Matcher.Selection.{Any}

-- A window is closed exactly while its intent is matched.
abbrev pub IsSettledWindow : String → IntentWithWindow → Type 0
IsSettledWindow id w = w.window_closed ≡ w.matched

abbrev pub AreBidsOn : String → List Bid → Type 0
AreBidsOn id bids = All (λ bid. bid.intent_id ≡ id) bids

-- The winner of a result is one of the bids, and none of them is cheaper.
abbrev pub NamesCheapest : MatchingResult → List Bid → Type 0
NamesCheapest r bids =
    (price : ℕ) × Any
      (λ bid.
        (bid.bid_id ≡ r.winning_bid_id) × (bid.agent_id ≡ r.winning_agent_id) × (bid.price ≡ price))
      bids
    × All (λ bid. price ≤ bid.price) bids

abbrev pub IsMatched : Map String IntentWithWindow → String → Type 0
IsMatched intents id = (w : IntentWithWindow) × (lookup id intents ≡ some w) × (w.matched ≡ true)

abbrev pub IsResult :
    Map String IntentWithWindow → Map String (List Bid) → String → MatchingResult → Type 0
IsResult intents bids id r =
    (r.intent_id ≡ id) × IsMatched intents id × NamesCheapest r (value_or [] (lookup id bids))

-- An assignment stands under its identifier and goes to a chain address.
abbrev pub IsIssued : String → Assignment → Type 0
IsIssued id a = (a.assignment_id ≡ id) × (is_chain_address a.agent_id ≡ true)

abbrev pub IsPending : Map String String → String → PendingAssignment → Type 0
IsPending agents id p = IsIssued id p.assignment × (is_some (lookup id agents) ≡ true)

pub record Inv (s : Server) : Type 0 where
  pub windows : Each IsSettledWindow s.intents
  pub bids : Each AreBidsOn s.bids_by_intent
  pub results : Each (IsResult s.intents s.bids_by_intent) s.matching_results
  pub pending : Each (IsPending s.assignment_agents) s.pending_assignments
  pub confirmed : Each IsIssued s.assignments
