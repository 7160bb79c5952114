-- ===== src/Matcher/Strategy.antt =====
-- internal/matcher/bid_strategy.go: the lowest price wins. `sort.Slice` leaves the order of equal
-- prices open: a `PriceSort` is any function that keeps its promise.
use subnet.Prelude.{◌≤◌, Option, none, some, List, [], ◌∷◌, take, All}
use mathlib.Core.List.{Permᴰ}
use subnet.Matcher.{Bid, Intent}

-- Each bid is no dearer than those behind it.
abbrev pub IsByPrice : List Bid → Type 0
IsByPrice [] = Unit
IsByPrice (bid ∷ bids) = All (λ other. bid.price ≤ other.price) bids × IsByPrice bids

-- `sort.Slice` with `sortedBids[i].Price < sortedBids[j].Price`.
pub record PriceSort : Type 0 where
  pub run : List Bid → List Bid
  pub run-perm : (bids : List Bid) → Permᴰ (run bids) bids
  pub run-IsByPrice : (bids : List Bid) → IsByPrice (run bids)

-- The winner and up to two more; `none` is the error for no bids.
abbrev pub pick : List Bid → Option (Bid × List Bid)
pick [] = none
pick (winner ∷ others) = some (winner, take 2 others)

unfoldable pub select_winner : PriceSort → Intent → List Bid → Option (Bid × List Bid)
select_winner sort intent [] = none
select_winner sort intent (bid ∷ bids) = pick (sort.run (bid ∷ bids))
