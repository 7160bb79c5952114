-- ===== src/Bids.antt =====
-- internal/matcher/bidbook.go: the bids on each intent. A bid is an object that the intent's window,
-- the map by identifier and the caller share, so a bid is a reference into a heap, and a call of
-- `AddBid` brings a new object. `now` is the clock, in seconds; times are not negative. The lock
-- makes each call one step; so is `GetSnapshot` here, which gives the lock up for a moment. The
-- intent and the bid keep the fields that the book reads or writes.
pub mod Heap
pub mod Prices
pub mod Invariant
pub mod Offers
use subnet.Prelude.{
  ℕ, suc, ◌+◌, String, Bool, true, false, not, ◌&&◌, Option, none, some, List, [], ◌∷◌, ◌++◌, ltb,
  ◌==◌, nat_eq, text_Eq, if◌then◌else◌, value_or, is_some, is_empty, length,
}
use mathlib.Core.Option
use subnet.Map.{Map, lookup, insert, delete}

pub record Bid : Type 0 where
  pub bid_id : String
  pub intent_id : String
  pub agent_id : String
  pub price : ℕ
  pub submitted_at : ℕ
  pub signature : String

pub record Intent : Type 0 where
  pub intent_id : String
  pub bidding_start_time : ℕ
  pub bidding_end_time : ℕ

pub record IntentBidSnapshot : Type 0 where
  pub intent_id : String
  pub bids : List ℕ
  pub bidding_start_time : ℕ
  pub bidding_end_time : ℕ
  pub bidding_closed : Bool
  pub intent : Intent

pub record BidBook : Type 0 where
  pub heap : Map ℕ Bid
  pub next : ℕ
  pub bids_by_intent : Map String IntentBidSnapshot
  pub bids_by_agent : Map String (List String)
  pub all_bids : Map String ℕ
  pub closed_windows : List String

pub data BidError : Type 0 where
  already_started : BidError
  intent_not_found : BidError
  window_closed : BidError
  window_expired : BidError
  already_submitted : BidError

unfoldable pub new_bid_book : BidBook
new_bid_book = record {
  heap = [];
  next = 0;
  bids_by_intent = [];
  bids_by_agent = [];
  all_bids = [];
  closed_windows = [];
}

abbrev pub new_snapshot : Intent → IntentBidSnapshot
new_snapshot intent = record {
  intent_id = intent.intent_id;
  bids = [];
  bidding_start_time = intent.bidding_start_time;
  bidding_end_time = intent.bidding_end_time;
  bidding_closed = false;
  intent = intent;
}

unfoldable pub start_bidding : BidBook → Intent → BidBook × Option BidError
start_bidding b intent =
    if is_some (lookup intent.intent_id b.bids_by_intent) then (b, some already_started) else (
      record b { bids_by_intent = insert intent.intent_id (new_snapshot intent) b.bids_by_intent },
      none,
    )

-- The window is closed, and listed among the closed ones.
abbrev pub close_window : BidBook → String → IntentBidSnapshot → BidBook
close_window b id w = record b {
  bids_by_intent = insert id (record w { bidding_closed = true }) b.bids_by_intent;
  closed_windows = b.closed_windows ++ (id ∷ []);
}

-- The loop for a bid of the same agent: its reference and the bid.
unfoldable pub find_bid : Map ℕ Bid → String → List ℕ → Option (ℕ × Bid)
find_bid heap agent [] = none
find_bid heap agent (r ∷ rs) =
    let rest = find_bid heap agent rs in
    elim (lookup r heap) [
      | none ↦ rest
      | some bid ↦ if bid.agent_id == agent then some (r, bid) else rest
    ]

abbrev pub improve_bid : BidBook → ℕ → Bid → Bid → BidBook
improve_bid b r old bid = record b {
  heap =
      insert r
        (record old {
          price = bid.price;
          submitted_at = bid.submitted_at;
          signature = bid.signature;
        })
        b.heap;
}

abbrev pub place_bid : BidBook → IntentBidSnapshot → Bid → BidBook
place_bid b w bid = record b {
  heap = insert b.next bid b.heap;
  next = b.next + 1;
  bids_by_intent =
      insert bid.intent_id (record w { bids = w.bids ++ (b.next ∷ []) }) b.bids_by_intent;
  all_bids = insert bid.bid_id b.next b.all_bids;
  bids_by_agent =
      insert bid.agent_id (value_or [] (lookup bid.agent_id b.bids_by_agent) ++ (bid.bid_id ∷ []))
        b.bids_by_agent;
}

-- The end of `AddBid`, in an open window.
unfoldable pub offer : BidBook → IntentBidSnapshot → Bid → BidBook × Option BidError
offer b w bid = elim (find_bid b.heap bid.agent_id w.bids) [
  | none ↦ (place_bid b w bid, none)
  | some (r, old) ↦
      if ltb bid.price old.price
      then (improve_bid b r old bid, none)
      else (b, some already_submitted)
]

unfoldable pub add_bid : ℕ → BidBook → Bid → BidBook × Option BidError
add_bid now b bid = elim (lookup bid.intent_id b.bids_by_intent) [
  | none ↦ (b, some intent_not_found)
  | some w ↦
      if w.bidding_closed
      then (b, some window_closed)
      else if ltb w.bidding_end_time now
      then (close_window b bid.intent_id w, some window_expired)
      else offer b w bid
]

-- `!snapshot.BiddingClosed && currentTime > snapshot.BiddingEndTime`
abbrev has_expired : ℕ → IntentBidSnapshot → Bool
has_expired now w = not w.bidding_closed && ltb w.bidding_end_time now

-- The copy that it answers holds the same references.
unfoldable get_snapshot : ℕ → BidBook → String → BidBook × Option IntentBidSnapshot
get_snapshot now b id = elim (lookup id b.bids_by_intent) [
  | none ↦ (b, none)
  | some w ↦
      if has_expired now w
      then (close_window b id w, some (record w { bidding_closed = true }))
      else (b, some w)
]

-- The windows with the expired ones closed, and the intents of those.
unfoldable close_expired :
    ℕ → Map String IntentBidSnapshot → Map String IntentBidSnapshot × List String
close_expired now [] = ([], [])
close_expired now ((id, w) ∷ windows) =
    let (rest, ids) = close_expired now windows in
    if has_expired now w
    then ((id, record w { bidding_closed = true }) ∷ rest, id ∷ ids)
    else ((id, w) ∷ rest, ids)

unfoldable get_closed_windows : ℕ → BidBook → BidBook × List String
get_closed_windows now b =
    let (windows, ids) = close_expired now b.bids_by_intent in
    (record b { bids_by_intent = windows; closed_windows = [] }, b.closed_windows ++ ids)

unfoldable get_bid : BidBook → String → Option Bid
get_bid b id = elim (lookup id b.all_bids) [ none ↦ none | some r ↦ lookup r b.heap ]

unfoldable get_agent_bids : BidBook → String → List String
get_agent_bids b agent = value_or [] (lookup agent b.bids_by_agent)

abbrev without : String → List String → List String
without id [] = []
without id (x ∷ xs) = let rest = without id xs in if x == id then rest else x ∷ rest

-- The bid's identifier is taken from its agent's list, and an empty list from the map.
abbrev untrack : Bid → Map String (List String) → Map String (List String)
untrack bid by_agent = elim (lookup bid.agent_id by_agent) [
  | none ↦ by_agent
  | some ids ↦
      let rest = without bid.bid_id ids in
      if is_empty rest then delete bid.agent_id by_agent else insert bid.agent_id rest by_agent
]

abbrev remove_bid : BidBook → ℕ → BidBook
remove_bid b r = elim (lookup r b.heap) [
  | none ↦ b
  | some bid ↦ record b {
    all_bids = delete bid.bid_id b.all_bids;
    bids_by_agent = untrack bid b.bids_by_agent;
  }
]

unfoldable remove_bids : BidBook → List ℕ → BidBook
remove_bids b [] = b
remove_bids b (r ∷ rs) = remove_bids (remove_bid b r) rs

unfoldable remove_intent : BidBook → String → BidBook
remove_intent b id = elim (lookup id b.bids_by_intent) [
  | none ↦ b
  | some w ↦
      let removed = remove_bids b w.bids in
      record removed { bids_by_intent = delete id removed.bids_by_intent }
]

unfoldable active_in : Map String IntentBidSnapshot → ℕ
active_in [] = 0
active_in ((id, w) ∷ windows) =
    let rest = active_in windows in if w.bidding_closed then rest else suc rest

unfoldable active_intent_count : BidBook → ℕ
active_intent_count b = active_in b.bids_by_intent

unfoldable total_bid_count : BidBook → ℕ
total_bid_count b = length b.all_bids

-- Closed, and `BiddingEndTime < now - olderThan`.
abbrev is_stale : ℕ → ℕ → IntentBidSnapshot → Bool
is_stale now older_than w = w.bidding_closed && ltb (w.bidding_end_time + older_than) now

unfoldable forget_bids : Map ℕ Bid → Map String ℕ → List ℕ → Map String ℕ
forget_bids heap all [] = all
forget_bids heap all (r ∷ rs) = elim (lookup r heap) [
  | none ↦ forget_bids heap all rs
  | some bid ↦ forget_bids heap (delete bid.bid_id all) rs
]

-- The loop of `CleanupExpired`: the windows left, the bids left, and the number removed.
unfoldable cleanup_windows :
    ℕ
    → ℕ
    → Map ℕ Bid
    → Map String IntentBidSnapshot
    → Map String ℕ
    → Map String IntentBidSnapshot × Map String ℕ × ℕ
cleanup_windows now older_than heap [] all = ([], all, 0)
cleanup_windows now older_than heap ((id, w) ∷ windows) all =
    let kept = cleanup_windows now older_than heap windows all in
    let removed = cleanup_windows now older_than heap windows (forget_bids heap all w.bids) in
    if is_stale now older_than w
    then (removed.0, removed.1, suc removed.2)
    else ((id, w) ∷ kept.0, kept.1, kept.2)

unfoldable cleanup_expired : ℕ → ℕ → BidBook → BidBook × ℕ
cleanup_expired now older_than b =
    let (windows, all, removed) =
      cleanup_windows now older_than b.heap b.bids_by_intent b.all_bids in
    (record b { bids_by_intent = windows; all_bids = all }, removed)
