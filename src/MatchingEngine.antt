-- ===== src/MatchingEngine.antt =====
-- internal/matcher/matching_engine.go: the bid with the highest score wins. A score is a float64,
-- so its type, its value and the test `>` are parameters, and so is `sort.Slice`, which leaves the
-- order of equal scores open. The snapshot's bids are those that its references lead to.
pub mod Winner
use subnet.Prelude.{
  ℕ, String, ◌≡◌, Bool, false, Option, none, some, List, [], ◌∷◌, map, ltb, if◌then◌else◌, is_empty,
  take, All,
}
use mathlib.Core.List.{Permᴰ}
use subnet.Bids.{Bid}
use subnet.Assignments.{MatchingResult}

-- `score` takes a price and the range of prices.
pub record Scores : Type 1 where
  pub Score : Type 0
  pub score : ℕ → ℕ → ℕ → Score
  pub above : Score → Score → Bool

pub record BidSnapshot : Type 0 where
  pub intent_id : String
  pub bids : List Bid
  pub bidding_end_time : ℕ

unfoldable pub widen : ℕ → ℕ → List Bid → ℕ × ℕ
widen low high [] = (low, high)
widen low high (bid ∷ bids) =
    widen (if ltb bid.price low then bid.price else low)
      (if ltb high bid.price then bid.price else high) bids

unfoldable pub find_price_range : List Bid → ℕ × ℕ
find_price_range [] = (0, 0)
find_price_range (bid ∷ bids) = widen bid.price bid.price bids

module _ (v : Scores) where
  abbrev pub ScoredBid : Type 0
  ScoredBid = Bid × v.Score

  unfoldable pub score_bids : List Bid → List ScoredBid
  score_bids bids =
      let range = find_price_range bids in
      map (λ bid. (bid, v.score bid.price range.0 range.1)) bids

  -- No bid behind another has a score above it.
  abbrev pub IsByScore : List ScoredBid → Type 0
  IsByScore [] = Unit
  IsByScore (b ∷ bs) = All (λ other. v.above other.1 b.1 ≡ false) bs × IsByScore bs

  pub record ScoreSort : Type 0 where
    pub run : List ScoredBid → List ScoredBid
    pub run-perm : (bs : List ScoredBid) → Permᴰ (run bs) bs
    pub run-IsByScore : (bs : List ScoredBid) → IsByScore (run bs)

  abbrev pub result_of : String → BidSnapshot → List ScoredBid → Option MatchingResult
  result_of matcher_id snapshot [] = none
  result_of matcher_id snapshot (winner ∷ others) = some (record {
    intent_id = snapshot.intent_id;
    winning_bid = some winner.0;
    winning_agent_id = winner.0.agent_id;
    runner_up_bids = map (λ b. b.0) (take 2 others);
    matched_at = snapshot.bidding_end_time;
    matcher_id = matcher_id;
  })

  -- `Match` of WeightedScoringStrategy.
  unfoldable pub match_bids : ScoreSort → String → BidSnapshot → Option MatchingResult
  match_bids sort matcher_id snapshot =
      if is_empty snapshot.bids
      then none
      else result_of matcher_id snapshot (sort.run (score_bids snapshot.bids))

  -- `Match` of MatchingEngine; nil is no snapshot.
  unfoldable pub match_snapshot : ScoreSort → String → Option BidSnapshot → Option MatchingResult
  match_snapshot sort matcher_id none = none
  match_snapshot sort matcher_id (some snapshot) = match_bids sort matcher_id snapshot
