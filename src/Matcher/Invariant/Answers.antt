-- ===== src/Matcher/Invariant/Answers.antt =====
-- The agents' answers and the choice of a runner-up keep the invariant.
use subnet.Prelude.{
  ℕ, zero, suc, ◌+◌, ◌≤◌, String, ◌≡◌, refl, sym, ap, subst, inl, inr, Bool, Option, none, some,
  List, [], ◌∷◌, arith, ltb, text_Eq, Bool-cases, Option-cases, value_or, some_eq, is_some,
  get_elem?, set, All,
}
use subnet.Map.{lookup}
use subnet.Map.Each.{Each-insert, Each-delete}
use subnet.Matcher.{BidStatus, Bid, Intent, MatchingResult, Server, Services, Attempt}
use subnet.Matcher.Tasks.{
  respond_to_task, is_candidate, cheaper, next_best, mark_winner, try_assign_to_runner_up,
  register_agent_for_tasks, unregister_agent_for_tasks,
}
use subnet.Matcher.Selection.{Any}
use subnet.Matcher.Invariant.{AreBidsOn, NamesCheapest, IsIssued, IsPending, Inv}
use subnet.Matcher.Invariant.Writes.{rewritten-results}
use subnet.Matcher.Invariant.Assigning.{create-Inv}

pub respond-Inv :
    (s : Server) (task_id agent_id : String) (agreed : Bool)
    → Inv s
    → Inv (respond_to_task s task_id agent_id agreed).0
unfolding respond_to_task
respond-Inv s task_id agent_id agreed v =
    elim (Option-cases (lookup task_id s.pending_assignments)) [
      | inl n ↦ rw (respond_to_task, n) v
      | inr (p, y) ↦ elim (Bool-cases agreed) [
        | inl a ↦
            rw (respond_to_task, y, a)
              (record {
                windows = v.windows;
                bids = v.bids;
                results = v.results;
                pending =
                    Each-delete (IsPending s.assignment_agents) task_id s.pending_assignments
                      v.pending;
                confirmed =
                    Each-insert IsIssued task_id p.assignment s.assignments
                      (v.pending task_id p y).0 v.confirmed;
              })
        | inr r ↦
            rw (respond_to_task, y, r)
              (record {
                windows = v.windows;
                bids = v.bids;
                results = v.results;
                pending =
                    Each-delete (IsPending s.assignment_agents) task_id s.pending_assignments
                      v.pending;
                confirmed = v.confirmed;
              })
      ]
    ]

-- What holds of the bid at a position also holds of the list where that bid is marked.
All-set :
    (P : Bid → Type 0) (bids : List Bid) (i : ℕ) (bid : Bid)
    → P bid
    → All P bids
    → All P (set bids i bid)
All-set P [] i bid p h = h
All-set P (x ∷ bids) zero bid p h = (p, h.1)
All-set P (x ∷ bids) (suc i) bid p h = (h.0, All-set P bids i bid p h.1)

Any-set :
    (P : Bid → Type 0) (bids : List Bid) (i : ℕ) (old new : Bid)
    → get_elem? bids i ≡ some old
    → (P old → P new)
    → Any P bids
    → Any P (set bids i new)
Any-set P [] i old new e f h = h
Any-set P (x ∷ bids) zero old new e f (inl h) = inl (f (subst P (some_eq e) h))
Any-set P (x ∷ bids) zero old new e f (inr h) = inr h
Any-set P (x ∷ bids) (suc i) old new e f (inl h) = inl h
Any-set P (x ∷ bids) (suc i) old new e f (inr h) = inr (Any-set P bids i old new e f h)

All-get :
    (P : Bid → Type 0) (bids : List Bid) (i : ℕ) (bid : Bid)
    → get_elem? bids i ≡ some bid
    → All P bids
    → P bid
All-get P [] i bid e h = absurd (ground (arith, e))
All-get P (x ∷ bids) zero bid e h = subst P (some_eq e) h.0
All-get P (x ∷ bids) (suc i) bid e h = All-get P bids i bid e h.1

-- The best bid so far stands at its position.
abbrev pub Stands : List Bid → Option (ℕ × Bid) → Type 0
Stands all none = Unit
Stands all (some (i, bid)) = get_elem? all i ≡ some bid

cheaper-Stands :
    (all : List Bid) (i : ℕ) (bid : Bid) (best : Option (ℕ × Bid))
    → get_elem? all i ≡ some bid
    → Stands all best
    → Stands all (cheaper i bid best)
cheaper-Stands all i bid none e h = e
cheaper-Stands all i bid (some (j, best)) e h = elim (Bool-cases (ltb bid.price best.price)) [
  | inl y ↦ rw y e
  | inr n ↦ rw n h
]

pub next_best-Stands :
    (excluded : String) (all : List Bid) (i : ℕ) (best : Option (ℕ × Bid)) (bids : List Bid)
    → ((j : ℕ) → get_elem? bids j ≡ get_elem? all (j + i))
    → Stands all best
    → Stands all (next_best excluded i best bids)
unfolding next_best
next_best-Stands excluded all i best [] f h = h
next_best-Stands excluded all i best (bid ∷ bids) f h =
    next_best-Stands excluded all (suc i) _ bids
      (λ j. subst (λ n. get_elem? bids j ≡ get_elem? all n) (omega arith) (f (suc j)))
      (elim (Bool-cases (is_candidate excluded bid)) [
        | inl y ↦ rw y (
            cheaper-Stands all i bid best
              (subst (λ n. get_elem? all n ≡ some bid) (omega arith) (sym (f 0))) h)
        | inr n ↦ rw n h
      ])

-- What a marked bid is for: its owner and price stay.
marked-NamesCheapest :
    (bids : List Bid) (i : ℕ) (bid : Bid) (r : MatchingResult)
    → get_elem? bids i ≡ some bid
    → NamesCheapest r bids
    → NamesCheapest r (set bids i (record bid { status = BidStatus.winner }))
marked-NamesCheapest bids i bid r e (price, named, cheapest) = (
  price,
  Any-set
      (λ b. (b.bid_id ≡ r.winning_bid_id) × (b.agent_id ≡ r.winning_agent_id) × (b.price ≡ price))
      bids i bid (record bid { status = BidStatus.winner }) e (λ h. h) named,
  All-set (λ b. price ≤ b.price) bids i (record bid { status = BidStatus.winner })
      (All-get (λ b. price ≤ b.price) bids i bid e cheapest) cheapest,
)

mark_winner-Inv :
    (s : Server) (id : String) (bids : List Bid) (i : ℕ) (bid : Bid)
    → lookup id s.bids_by_intent ≡ some bids
    → get_elem? bids i ≡ some bid
    → Inv s
    → Inv (mark_winner s id bids i bid)
mark_winner-Inv s id bids i bid e g v =
    let marked = record bid { status = BidStatus.winner } in
    let on = v.bids id bids e in
    record {
      windows = v.windows;
      bids =
          Each-insert AreBidsOn id (set bids i marked) s.bids_by_intent
            (All-set (λ b. b.intent_id ≡ id) bids i marked
              (All-get (λ b. b.intent_id ≡ id) bids i bid g on) on)
            v.bids;
      results =
          rewritten-results id (set bids i marked) s.intents s.bids_by_intent s.matching_results
            (λ r n.
              marked-NamesCheapest bids i bid r g
                (subst (λ o. NamesCheapest r (value_or [] o)) e n))
            v.results;
      pending = v.pending;
      confirmed = v.confirmed;
    }

no_candidate :
    (excluded : String) (i : ℕ) (bid : Bid) → next_best excluded 0 none [] ≡ some (i, bid) → ⊥
unfolding next_best
no_candidate excluded i bid f = ground (arith, f)

reassign-Inv :
    (v : Services) (call : Attempt) (s : Server) (intent : Intent) (excluded : String)
    (found : Option (ℕ × Bid))
    → next_best excluded 0 none (value_or [] (lookup intent.intent_id s.bids_by_intent)) ≡ found
    → Inv s
    → Inv (try_assign_to_runner_up v call s intent excluded)
unfolding try_assign_to_runner_up
reassign-Inv v call s intent excluded none f h = rw (try_assign_to_runner_up, f) h
reassign-Inv v call s intent excluded (some (i, bid)) f h =
    let id = intent.intent_id in
    let bids = value_or [] (lookup id s.bids_by_intent) in
    let listed : lookup id s.bids_by_intent ≡ some bids =
      elim (Option-cases (lookup id s.bids_by_intent)) [
        | inl n ↦ absurd (
            no_candidate excluded i bid
              (subst (λ o. next_best excluded 0 none (value_or [] o) ≡ some (i, bid)) n f))
        | inr (bs, y) ↦ subst (λ o. o ≡ some (value_or [] o)) (sym y) refl
      ] in
    let stands : get_elem? bids i ≡ some bid =
      subst (Stands bids) f
        (next_best-Stands excluded bids 0 none bids (λ j. ap (get_elem? bids) (omega arith)) tt) in
    let marked = mark_winner s id bids i bid in
    let kept = mark_winner-Inv s id bids i bid listed stands h in
    elim (Bool-cases (is_some (lookup id s.intents))) [
      | inr n ↦ rw (try_assign_to_runner_up, f, n) kept
      | inl y ↦
          rw (try_assign_to_runner_up, f, y)
            (create-Inv v call marked id (record bid { status = BidStatus.winner }) kept)
    ]

pub runner_up-Inv :
    (v : Services) (call : Attempt) (s : Server) (intent : Intent) (excluded : String)
    → Inv s
    → Inv (try_assign_to_runner_up v call s intent excluded)
runner_up-Inv v call s intent excluded =
    reassign-Inv v call s intent excluded
      (next_best excluded 0 none (value_or [] (lookup intent.intent_id s.bids_by_intent))) refl

pub register-Inv :
    (s : Server) (agent_id : String) → Inv s → Inv (register_agent_for_tasks s agent_id)
unfolding register_agent_for_tasks
register-Inv s agent_id v = elim (Bool-cases (is_some (lookup agent_id s.agent_tasks))) [
  | inl y ↦ rw (register_agent_for_tasks, y) v
  | inr n ↦
      rw (register_agent_for_tasks, n)
        (record {
          windows = v.windows;
          bids = v.bids;
          results = v.results;
          pending = v.pending;
          confirmed = v.confirmed;
        })
]

pub unregister-Inv :
    (s : Server) (agent_id : String) → Inv s → Inv (unregister_agent_for_tasks s agent_id)
unfolding unregister_agent_for_tasks
unregister-Inv s agent_id v = record {
  windows = v.windows;
  bids = v.bids;
  results = v.results;
  pending = v.pending;
  confirmed = v.confirmed;
}
