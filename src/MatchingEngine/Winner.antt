-- ===== src/MatchingEngine/Winner.antt =====
-- What the engine's range of prices and its result are.
use subnet.Prelude.{
  ℕ, ◌≤◌, String, ◌≡◌, refl, sym, ap, subst, ◌∙◌, ◌⊎◌, inl, inr, none, some, List, [], ◌∷◌, map,
  arith, ltb, ltb→lt, if◌then◌else◌, Bool-cases, some_eq, is_empty, take, All,
}
use mathlib.Core.List.{Permᴰ}
use subnet.Bids.{Bid}
use subnet.Assignments.{MatchingResult}
use subnet.Matcher.Selection.{Any}
use subnet.MatchingEngine.{
  Scores, BidSnapshot, ScoredBid, ScoreSort, IsByScore, score_bids, result_of, match_bids, widen,
  find_price_range,
}

-- The bounds found hold the prices and the bounds before.
record Bounds (low high : ℕ) (bids : List Bid) (range : ℕ × ℕ) : Type 0 where
  lower : range.0 ≤ low
  upper : high ≤ range.1
  within : All (λ bid. (range.0 ≤ bid.price) × (bid.price ≤ range.1)) bids
  low_from : (range.0 ≡ low) ⊎ Any (λ bid. range.0 ≡ bid.price) bids
  high_from : (range.1 ≡ high) ⊎ Any (λ bid. range.1 ≡ bid.price) bids

abbrev lower_of : ℕ → ℕ → ℕ
lower_of low price = if ltb price low then price else low

abbrev higher_of : ℕ → ℕ → ℕ
higher_of high price = if ltb high price then price else high

lower_of_lem :
    (low price : ℕ)
    → (lower_of low price ≤ low)
      × (lower_of low price ≤ price)
      × ((lower_of low price ≡ low) ⊎ (lower_of low price ≡ price))
lower_of_lem low price = elim (Bool-cases (ltb price low)) [
  | inl y ↦ rw y (omega (arith, ltb→lt price low y), omega arith, inr refl)
  | inr n ↦ rw n (omega arith, ground (arith, n), inl refl)
]

higher_of_lem :
    (high price : ℕ)
    → (high ≤ higher_of high price)
      × (price ≤ higher_of high price)
      × ((higher_of high price ≡ high) ⊎ (higher_of high price ≡ price))
higher_of_lem high price = elim (Bool-cases (ltb high price)) [
  | inl y ↦ rw y (omega (arith, ltb→lt high price y), omega arith, inr refl)
  | inr n ↦ rw n (omega arith, ground (arith, n), inl refl)
]

-- A bound is the one before, or the price of a bid.
origin :
    (found between before : ℕ) (bid : Bid) (bids : List Bid)
    → (found ≡ between) ⊎ Any (λ b. found ≡ b.price) bids
    → (between ≡ before) ⊎ (between ≡ bid.price)
    → (found ≡ before) ⊎ Any (λ b. found ≡ b.price) (bid ∷ bids)
origin found between before bid bids (inr a) k = inr (inr a)
origin found between before bid bids (inl e) (inl f) = inl (e ∙ f)
origin found between before bid bids (inl e) (inr f) = inr (inl (e ∙ f))

widen-Bounds : (low high : ℕ) (bids : List Bid) → Bounds low high bids (widen low high bids)
unfolding widen
widen-Bounds low high [] = record {
  lower = omega arith;
  upper = omega arith;
  within = tt;
  low_from = inl refl;
  high_from = inl refl;
}
widen-Bounds low high (bid ∷ bids) =
    let rest = widen-Bounds (lower_of low bid.price) (higher_of high bid.price) bids in
    let (la, lb, lc) = lower_of_lem low bid.price in
    let (ha, hb, hc) = higher_of_lem high bid.price in
    record {
      lower = omega (arith, rest.lower, la);
      upper = omega (arith, rest.upper, ha);
      within = ((omega (arith, rest.lower, lb), omega (arith, rest.upper, hb)), rest.within);
      low_from = origin _ (lower_of low bid.price) low bid bids rest.low_from lc;
      high_from = origin _ (higher_of high bid.price) high bid bids rest.high_from hc;
    }

-- The range of prices of some bids: every price lies in it, and both bounds are prices of bids.
find_price_range_lem :
    (bid : Bid) (bids : List Bid)
    → All
        (λ b.
          ((find_price_range (bid ∷ bids)).0 ≤ b.price)
          × (b.price ≤ (find_price_range (bid ∷ bids)).1))
        (bid ∷ bids)
      × Any (λ b. (find_price_range (bid ∷ bids)).0 ≡ b.price) (bid ∷ bids)
      × Any (λ b. (find_price_range (bid ∷ bids)).1 ≡ b.price) (bid ∷ bids)
unfolding find_price_range
find_price_range_lem bid bids =
    let b = widen-Bounds bid.price bid.price bids in
    (((b.lower, b.upper), b.within), b.low_from, b.high_from)

module _ (v : Scores) where
  -- The result names one of the scored bids, no other has a score above it, and the runner-ups are
  -- the bids behind it in the order, two at most.
  record Won (snapshot : BidSnapshot) (result : MatchingResult) : Type 0 where
    winner : ScoredBid v
    others : List (ScoredBid v)
    ranked : Permᴰ (winner ∷ others) (score_bids v snapshot.bids)
    by_score : IsByScore v (winner ∷ others)
    named : result.winning_bid ≡ some winner.0
    agent : result.winning_agent_id ≡ winner.0.agent_id
    behind : result.runner_up_bids ≡ map (λ b. b.0) (take 2 others)
    intent : result.intent_id ≡ snapshot.intent_id

  result_of-Won :
      (matcher_id : String) (snapshot : BidSnapshot) (bs : List (ScoredBid v))
      (result : MatchingResult)
      → Permᴰ bs (score_bids v snapshot.bids)
      → IsByScore v bs
      → result_of v matcher_id snapshot bs ≡ some result
      → Won snapshot result
  result_of-Won matcher_id snapshot [] result p o e = absurd (ground (arith, e))
  result_of-Won matcher_id snapshot (winner ∷ others) result p o e =
      let same = some_eq (sym e) in
      record {
        winner = winner;
        others = others;
        ranked = p;
        by_score = o;
        named = ap (λ r. r.winning_bid) same;
        agent = ap (λ r. r.winning_agent_id) same;
        behind = ap (λ r. r.runner_up_bids) same;
        intent = ap (λ r. r.intent_id) same;
      }

  -- Whatever the sort does with equal scores, a result of the engine names a bid of the snapshot
  -- that no other outscores, with the bids ranked behind it as runner-ups, two at most.
  match_bids-Won :
      (sort : ScoreSort v) (matcher_id : String) (snapshot : BidSnapshot) (result : MatchingResult)
      → match_bids v sort matcher_id snapshot ≡ some result
      → Won snapshot result
  unfolding match_bids
  match_bids-Won sort matcher_id snapshot result e = elim (Bool-cases (is_empty snapshot.bids)) [
    | inl y ↦ absurd (
        ground (
          arith,
          subst
              (λ z.
                (if z
                  then none
                  else result_of v matcher_id snapshot (sort.run (score_bids v snapshot.bids)))
                ≡ some result)
              y e,
        ))
    | inr n ↦
        result_of-Won matcher_id snapshot (sort.run (score_bids v snapshot.bids)) result
          (sort.run-perm (score_bids v snapshot.bids))
          (sort.run-IsByScore (score_bids v snapshot.bids))
          (subst
            (λ z.
              (if z
                then none
                else result_of v matcher_id snapshot (sort.run (score_bids v snapshot.bids)))
              ≡ some result)
            n e)
  ]
