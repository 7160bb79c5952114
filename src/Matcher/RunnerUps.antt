-- ===== src/Matcher/RunnerUps.antt =====
-- Whom `tryAssignToRunnerUp` takes.
use subnet.Prelude.{
  ℕ, suc, ◌≤◌, String, ◌≡◌, ap, inl, inr, true, false, Option, none, some, List, [], ◌∷◌, arith,
  ltb, ltb→lt, Bool-cases, get_elem?, All,
}
use subnet.Matcher.{Bid}
use subnet.Matcher.Tasks.{is_candidate, cheaper, next_best}
use subnet.Matcher.Invariant.Answers.{Stands, next_best-Stands}

-- A candidate does not come in below what was found.
abbrev pub IsFloor : String → Option (ℕ × Bid) → Bid → Type 0
IsFloor excluded none bid = is_candidate excluded bid ≡ false
IsFloor excluded (some (i, best)) bid = is_candidate excluded bid ≡ true → best.price ≤ bid.price

abbrev pub IsCandidate : String → Option (ℕ × Bid) → Type 0
IsCandidate excluded none = Unit
IsCandidate excluded (some (i, best)) = is_candidate excluded best ≡ true

-- The best so far only gets cheaper.
abbrev Improves : Option (ℕ × Bid) → Option (ℕ × Bid) → Type 0
Improves none new = Unit
Improves (some (i, old)) none = ⊥
Improves (some (i, old)) (some (j, new)) = new.price ≤ old.price

Improves-trans : (a b c : Option (ℕ × Bid)) → Improves a b → Improves b c → Improves a c
Improves-trans none b c h k = tt
Improves-trans (some a) none c h k = absurd h
Improves-trans (some a) (some b) none h k = absurd k
Improves-trans (some (i, a)) (some (j, b)) (some (l, c)) h k = omega (arith, h, k)

Improves-refl : (a : Option (ℕ × Bid)) → Improves a a
Improves-refl none = tt
Improves-refl (some (i, a)) = omega arith

IsFloor-mono :
    (excluded : String) (a b : Option (ℕ × Bid)) (bid : Bid)
    → is_candidate excluded bid ≡ true
    → IsFloor excluded a bid
    → Improves a b
    → IsFloor excluded b bid
IsFloor-mono excluded none b bid c f h = absurd (ground (arith, c, f))
IsFloor-mono excluded (some (i, a)) none bid c f h = absurd h
IsFloor-mono excluded (some (i, a)) (some (j, b)) bid c f h = λ d. omega (arith, f d, h)

-- A bid that is no candidate is below nothing.
no_candidate-IsFloor :
    (excluded : String) (a : Option (ℕ × Bid)) (bid : Bid)
    → is_candidate excluded bid ≡ false
    → IsFloor excluded a bid
no_candidate-IsFloor excluded none bid n = n
no_candidate-IsFloor excluded (some (i, a)) bid n = λ c. absurd (ground (arith, n, c))

cheaper-lem :
    (excluded : String) (i : ℕ) (bid : Bid) (best : Option (ℕ × Bid))
    → is_candidate excluded bid ≡ true
    → IsCandidate excluded best
    → IsCandidate excluded (cheaper i bid best)
      × Improves best (cheaper i bid best)
      × IsFloor excluded (cheaper i bid best) bid
cheaper-lem excluded i bid none c h = (c, tt, λ d. omega arith)
cheaper-lem excluded i bid (some (j, best)) c h = elim (Bool-cases (ltb bid.price best.price)) [
  | inl y ↦ rw y (c, omega (arith, ltb→lt bid.price best.price y), λ d. omega arith)
  | inr n ↦ rw n (h, omega arith, λ d. ground (arith, n))
]

-- What the loop finds from the best so far.
record Found (excluded : String) (best : Option (ℕ × Bid)) (bids : List Bid) (r : Option (ℕ × Bid))
    : Type 0 where
  candidate : IsCandidate excluded r
  improves : Improves best r
  floor : All (IsFloor excluded r) bids

next_best-Found :
    (excluded : String) (i : ℕ) (best : Option (ℕ × Bid)) (bids : List Bid)
    → IsCandidate excluded best
    → Found excluded best bids (next_best excluded i best bids)
unfolding next_best
next_best-Found excluded i best [] h = record {
  candidate = h;
  improves = Improves-refl best;
  floor = tt;
}
next_best-Found excluded i best (bid ∷ bids) h = elim (Bool-cases (is_candidate excluded bid)) [
  | inl y ↦
      let (c, m, f) = cheaper-lem excluded i bid best y h in
      let rest = next_best-Found excluded (suc i) (cheaper i bid best) bids c in
      rw (next_best, y)
        (record {
          candidate = rest.candidate;
          improves = Improves-trans best (cheaper i bid best) _ m rest.improves;
          floor = (IsFloor-mono excluded (cheaper i bid best) _ bid y f rest.improves, rest.floor);
        })
  | inr n ↦
      let rest = next_best-Found excluded (suc i) best bids h in
      rw (next_best, n)
        (record {
          candidate = rest.candidate;
          improves = rest.improves;
          floor = (no_candidate-IsFloor excluded _ bid n, rest.floor);
        })
]

-- The runner-up stands among the bids at the position found, is a submitted bid of another agent
-- than the one left out, and no other such bid is cheaper; none is found only if there is no such
-- bid.
pub next_best_lem :
    (excluded : String) (bids : List Bid)
    → Stands bids (next_best excluded 0 none bids)
      × IsCandidate excluded (next_best excluded 0 none bids)
      × All (IsFloor excluded (next_best excluded 0 none bids)) bids
next_best_lem excluded bids =
    let found = next_best-Found excluded 0 none bids tt in
    (
      next_best-Stands excluded bids 0 none bids (λ j. ap (get_elem? bids) (omega arith)) tt,
      found.candidate,
      found.floor,
    )
