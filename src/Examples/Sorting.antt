-- ===== src/Examples/Sorting.antt =====
-- A sort by price: insertion.
use mathlib.Core.List.{Permᴰ}
use mathlib.Core.List.Permᴰ
use subnet.Prelude.{
  ℕ, ◌≤◌, refl, inl, inr, List, [], ◌∷◌, arith, leb, leb→le, leb-false→lt, if◌then◌else◌,
  Bool-cases, All, All-mono,
}
use subnet.Matcher.{Bid}
use subnet.Matcher.Strategy.{IsByPrice, PriceSort}

unfoldable pub insert_bid : Bid → List Bid → List Bid
insert_bid bid [] = bid ∷ []
insert_bid bid (other ∷ bids) =
    let rest = insert_bid bid bids in
    if leb bid.price other.price then bid ∷ other ∷ bids else other ∷ rest

unfoldable pub sort_bids : List Bid → List Bid
unfolding insert_bid
sort_bids [] = []
sort_bids (bid ∷ bids) = insert_bid bid (sort_bids bids)

insert-perm : (bid : Bid) (bids : List Bid) → Permᴰ (insert_bid bid bids) (bid ∷ bids)
unfolding insert_bid
insert-perm bid [] = Permᴰ.refl (bid ∷ [])
insert-perm bid (other ∷ bids) = elim (Bool-cases (leb bid.price other.price)) [
  | inl y ↦ rw y (Permᴰ.refl (bid ∷ other ∷ bids))
  | inr n ↦ rw n (Permᴰ.trans (Permᴰ.cons refl (insert-perm bid bids)) (Permᴰ.swap refl refl))
]

insert-All :
    (low : ℕ) (bid : Bid) (bids : List Bid)
    → low ≤ bid.price
    → All (λ other. low ≤ other.price) bids
    → All (λ other. low ≤ other.price) (insert_bid bid bids)
unfolding insert_bid
insert-All low bid [] h k = (h, tt)
insert-All low bid (other ∷ bids) h k = elim (Bool-cases (leb bid.price other.price)) [
  | inl y ↦ rw y (h, k)
  | inr n ↦ rw n (k.0, insert-All low bid bids h k.1)
]

insert-IsByPrice : (bid : Bid) (bids : List Bid) → IsByPrice bids → IsByPrice (insert_bid bid bids)
unfolding insert_bid
insert-IsByPrice bid [] h = (tt, tt)
insert-IsByPrice bid (other ∷ bids) h = elim (Bool-cases (leb bid.price other.price)) [
  | inl y ↦ rw y (
    (
      leb→le bid.price other.price y,
      All-mono (λ x. other.price ≤ x.price) (λ x. bid.price ≤ x.price) bids
          (λ x k. omega (arith, k, leb→le bid.price other.price y)) h.0,
    ),
    h,
  )
  | inr n ↦ rw n (
    insert-All other.price bid bids (omega (arith, leb-false→lt bid.price other.price n)) h.0,
    insert-IsByPrice bid bids h.1,
  )
]

pub sort-perm : (bids : List Bid) → Permᴰ (sort_bids bids) bids
unfolding sort_bids
sort-perm [] = Permᴰ.nil
sort-perm (bid ∷ bids) =
    Permᴰ.trans (insert-perm bid (sort_bids bids)) (Permᴰ.cons refl (sort-perm bids))

pub sort-IsByPrice : (bids : List Bid) → IsByPrice (sort_bids bids)
unfolding sort_bids
sort-IsByPrice [] = tt
sort-IsByPrice (bid ∷ bids) = insert-IsByPrice bid (sort_bids bids) (sort-IsByPrice bids)

abbrev pub by_insertion : PriceSort
by_insertion = record { run = sort_bids; run-perm = sort-perm; run-IsByPrice = sort-IsByPrice }
