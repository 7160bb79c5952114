-- ===== src/Matcher/Selection.antt =====
-- What `SelectWinner` promises for the lowest price.
use mathlib.Core.List.{Permᴰ}
use mathlib.Core.List.Permᴰ
use subnet.Prelude.{
  ℕ, zero, suc, ◌≤◌, ◌≡◌, refl, sym, ap, subst, ◌⊎◌, inl, inr, Option, none, some, List, [], ◌∷◌,
  ◌++◌, arith, some_eq, length, take, drop, All,
}
use subnet.Matcher.{Bid, Intent}
use subnet.Matcher.Strategy.{PriceSort, IsByPrice, pick, select_winner}

module _ {ℓ} {A : Type ℓ} where
  -- Some element satisfies the predicate.
  abbrev pub Any : (A → Type 0) → List A → Type 0
  Any P [] = ⊥
  Any P (x ∷ xs) = P x ⊎ Any P xs

  pub Any-mono : (P Q : A → Type 0) (xs : List A) → ((x : A) → P x → Q x) → Any P xs → Any Q xs
  Any-mono P Q [] f h = absurd h
  Any-mono P Q (x ∷ xs) f (inl p) = inl (f x p)
  Any-mono P Q (x ∷ xs) f (inr a) = inr (Any-mono P Q xs f a)

  All-perm {κ} : (P : A → Type κ) {xs ys : List A} → Permᴰ xs ys → All P xs → All P ys
  All-perm P Permᴰ.nil h = tt
  All-perm P (Permᴰ.cons e p) h = (subst P e h.0, All-perm P p h.1)
  All-perm P (Permᴰ.swap e f) h = (subst P f h.1.0, (subst P e h.0, h.1.1))
  All-perm P (Permᴰ.trans p q) h = All-perm P q (All-perm P p h)

  Any-perm : (P : A → Type 0) {xs ys : List A} → Permᴰ xs ys → Any P xs → Any P ys
  Any-perm P Permᴰ.nil h = absurd h
  Any-perm P (Permᴰ.cons e p) (inl h) = inl (subst P e h)
  Any-perm P (Permᴰ.cons e p) (inr h) = inr (Any-perm P p h)
  Any-perm P (Permᴰ.swap e f) (inl h) = inr (inl (subst P e h))
  Any-perm P (Permᴰ.swap e f) (inr (inl h)) = inl (subst P f h)
  Any-perm P (Permᴰ.swap e f) (inr (inr h)) = inr (inr h)
  Any-perm P (Permᴰ.trans p q) h = Any-perm P q (Any-perm P p h)

  take-drop : (n : ℕ) (xs : List A) → take n xs ++ drop n xs ≡ xs
  take-drop zero xs = refl
  take-drop (suc n) [] = refl
  take-drop (suc n) (x ∷ xs) = ap (λ l. x ∷ l) (take-drop n xs)

  length-take : (n : ℕ) (xs : List A) → length (take n xs) ≤ n
  length-take zero xs = omega arith
  length-take (suc n) [] = omega arith
  length-take (suc n) (x ∷ xs) = omega (arith, length-take n xs)

  take_all : (n : ℕ) (xs : List A) → (length (take n xs) ≡ n) ⊎ (drop n xs ≡ [])
  take_all zero xs = inl refl
  take_all (suc n) [] = inr refl
  take_all (suc n) (x ∷ xs) = ground (arith, take_all n xs)

-- A winner with runner-ups, from all the bids.
pub data Selected (bids : List Bid) : Option (Bid × List Bid) → Type 0 where
  no_bids : bids ≡ [] → Selected bids none
  selected :
      (winner : Bid) (runner_ups rest : List Bid)
      → Permᴰ (winner ∷ runner_ups ++ rest) bids
      → IsByPrice (winner ∷ runner_ups ++ rest)
      → length runner_ups ≤ 2
      → (length runner_ups ≡ 2) ⊎ (rest ≡ [])
      → Selected bids (some (winner, runner_ups))

pick-Selected :
    (bid : Bid) (bids sorted : List Bid)
    → Permᴰ sorted (bid ∷ bids)
    → IsByPrice sorted
    → Selected (bid ∷ bids) (pick sorted)
pick-Selected bid bids [] p o = absurd (Any-perm (λ b. Unit) (Permᴰ.symm p) (inl tt))
pick-Selected bid bids (winner ∷ others) p o =
    let e : take 2 others ++ drop 2 others ≡ others = take-drop 2 others in
    selected winner (take 2 others) (drop 2 others)
      (subst (λ l. Permᴰ (winner ∷ l) (bid ∷ bids)) (sym e) p)
      (subst (λ l. IsByPrice (winner ∷ l)) (sym e) o) (length-take 2 others) (take_all 2 others)

-- Whatever the sort does with equal prices: without bids there is an error; otherwise the winner,
-- the runner-ups and the rest are the bids in the order of their prices, with two runner-ups where
-- three bids are there and all others as runner-ups where not.
pub select_winner-Selected :
    (sort : PriceSort) (intent : Intent) (bids : List Bid)
    → Selected bids (select_winner sort intent bids)
unfolding select_winner
select_winner-Selected sort intent [] = no_bids refl
select_winner-Selected sort intent (bid ∷ bids) =
    pick-Selected bid bids (sort.run (bid ∷ bids)) (sort.run-perm (bid ∷ bids))
      (sort.run-IsByPrice (bid ∷ bids))

-- A strategy whose winner is one of the bids, and none is cheaper.
abbrev pub IsCheapestFirst : (Intent → List Bid → Option (Bid × List Bid)) → Type 0
IsCheapestFirst select =
    (intent : Intent) (bids : List Bid) (winner : Bid) (runner_ups : List Bid)
    → select intent bids ≡ some (winner, runner_ups)
    → Any (λ bid. bid ≡ winner) bids × All (λ bid. winner.price ≤ bid.price) bids

Selected-IsCheapest :
    (bids : List Bid) (o : Option (Bid × List Bid)) (winner : Bid) (runner_ups : List Bid)
    → Selected bids o
    → o ≡ some (winner, runner_ups)
    → Any (λ bid. bid ≡ winner) bids × All (λ bid. winner.price ≤ bid.price) bids
Selected-IsCheapest bids none winner runner_ups (no_bids e) f = absurd (ground (arith, f))
Selected-IsCheapest bids (some (w, rs)) winner runner_ups (selected w' rs' rest p o n m) f =
    let e : w ≡ winner = ap (λ x. x.0) (some_eq f) in
    subst (λ v. Any (λ bid. bid ≡ v) bids × All (λ bid. v.price ≤ bid.price) bids) e
      (
        Any-perm (λ bid. bid ≡ w) p (inl refl),
        All-perm (λ bid. w.price ≤ bid.price) p (omega arith, o.0),
      )

pub select_winner-IsCheapestFirst : (sort : PriceSort) → IsCheapestFirst (select_winner sort)
select_winner-IsCheapestFirst sort intent bids winner runner_ups e =
    Selected-IsCheapest bids (select_winner sort intent bids) winner runner_ups
      (select_winner-Selected sort intent bids) e
