-- ===== src/Bids/Prices.antt =====
-- What `AddBid` does to the prices that agents have offered.
use subnet.Prelude.{
  ℕ, ◌<◌, String, ◌≡◌, refl, sym, ap, subst, ◌∙◌, ◌≢◌, ◌⊎◌, inl, inr, Option, none, some, List, [],
  ◌∷◌, ◌++◌, eq_iff, arith, ◌==◌, nat_eq, text_Eq, Bool-cases, Option-cases, some_eq, beq→eq, All,
  All-mono,
}
use subnet.Map.{Map, lookup, insert, lookup-insert_self, lookup-insert_ne}
use subnet.Bids.{Bid, IntentBidSnapshot, BidBook, find_bid, improve_bid, place_bid}
use subnet.Bids.Heap.{
  find_cases, found_eq, find_here, find_next, Skips-at, find_bid-found, find_bid-other,
  find_bid-same, find_bid-fresh, find_bid-append, find_bid-append_found,
}

abbrev pub price_found : Option (ℕ × Bid) → Option ℕ
price_found none = none
price_found (some (r, bid)) = some bid.price

abbrev pub price_in : Map ℕ Bid → String → Option IntentBidSnapshot → Option ℕ
price_in heap agent none = none
price_in heap agent (some w) = price_found (find_bid heap agent w.bids)

-- The price that an agent has offered for an intent.
abbrev pub price_of : BidBook → String → String → Option ℕ
price_of b id agent = price_in b.heap agent (lookup id b.bids_by_intent)

-- A reference of an intent's window leads to a bid on that intent.
abbrev pub IsBidOn : BidBook → String → ℕ → Type 0
IsBidOn b id r = (r < b.next) × ((bid : Bid) × (lookup r b.heap ≡ some bid) × (bid.intent_id ≡ id))

abbrev pub Inv : BidBook → Type 0
Inv b =
    (id : String) (w : IntentBidSnapshot)
    → lookup id b.bids_by_intent ≡ some w
    → All (IsBidOn b id) w.bids

-- The agent's price is the bid's, and every other price is what it was.
pub record SetsPrice (b b' : BidBook) (bid : Bid) : Type 0 where
  pub own : price_of b' bid.intent_id bid.agent_id ≡ some bid.price
  pub others :
      (id agent : String)
      → (id ≢ bid.intent_id) ⊎ (agent ≢ bid.agent_id)
      → price_of b' id agent ≡ price_of b id agent

-- What holds of every reference of a list holds of a found one.
found-All :
    (P : ℕ → Type 0) (heap : Map ℕ Bid) (agent : String) (rs : List ℕ) (r : ℕ) (old : Bid)
    → find_bid heap agent rs ≡ some (r, old)
    → All P rs
    → P r
found-All P heap agent [] r old e h = absurd (unfold find_bid in ground (arith, e))
found-All P heap agent (x ∷ rs) r old e h = elim (find_cases heap agent x) [
  | inl (b, y, a) ↦ subst P (found_eq x r b old (sym (find_here heap agent x rs b y a) ∙ e)).0 h.0
  | inr s ↦ found-All P heap agent rs r old (sym (find_next heap agent x rs s) ∙ e) h.1
]

-- The prices in a window that is left alone, when the heap's write is not seen there.
same_window :
    (b : BidBook) (heap' : Map ℕ Bid) (id agent : String)
    → ((u : IntentBidSnapshot)
        → lookup id b.bids_by_intent ≡ some u
        → find_bid heap' agent u.bids ≡ find_bid b.heap agent u.bids)
    → price_in heap' agent (lookup id b.bids_by_intent) ≡ price_of b id agent
same_window b heap' id agent h = elim (Option-cases (lookup id b.bids_by_intent)) [
  | inl e ↦ ap (price_in heap' agent) e ∙ sym (ap (price_in b.heap agent) e)
  | inr (u, e) ↦
      ap (price_in heap' agent) e ∙ ap price_found (h u e) ∙ sym (ap (price_in b.heap agent) e)
]

abbrev pub intent_of : Bid → String
intent_of bid = bid.intent_id

-- A bid on one intent is in no other intent's window.
other_window :
    (b : BidBook) (id : String) (r : ℕ) (old : Bid) (rs : List ℕ)
    → id ≢ old.intent_id
    → lookup r b.heap ≡ some old
    → All (IsBidOn b id) rs
    → All (λ x. r ≢ x) rs
other_window b id r old rs n h v =
    All-mono _ _ rs
      (λ x q p. n (
        sym (q.1.2)
        ∙ ap intent_of (some_eq (sym q.1.1 ∙ sym (ap (λ (z : ℕ). lookup z b.heap) p) ∙ h))))
      v

pub improve_bid-SetsPrice :
    (b : BidBook) (w : IntentBidSnapshot) (bid old : Bid) (r : ℕ)
    → Inv b
    → lookup bid.intent_id b.bids_by_intent ≡ some w
    → find_bid b.heap bid.agent_id w.bids ≡ some (r, old)
    → SetsPrice b (improve_bid b r old bid) bid
improve_bid-SetsPrice b w bid old r v at_intent f =
    let new = record old {
      price = bid.price;
      submitted_at = bid.submitted_at;
      signature = bid.signature;
    } in
    let heap' = insert r new b.heap in
    let (y, a) = find_bid-found b.heap bid.agent_id w.bids r old f in
    let on =
      found-All (IsBidOn b bid.intent_id) b.heap bid.agent_id w.bids r old f
        (v bid.intent_id w at_intent) in
    let intent = sym (ap intent_of (some_eq (sym on.1.1 ∙ y))) ∙ on.1.2 in
    record {
      own =
          ap (price_in heap' bid.agent_id) at_intent
          ∙ ap price_found (find_bid-same b.heap bid.agent_id r old new w.bids f a);
      others = λ id agent h. same_window b heap' id agent (λ u e. elim h [
        | inl n ↦
            find_bid-fresh b.heap agent r new u.bids
              (other_window b id r old u.bids (λ p. n (p ∙ intent)) y (v id u e))
        | inr n ↦
            let m = λ (p : old.agent_id ≡ agent). n (sym p ∙ a) in
            find_bid-other b.heap agent r old new u.bids y m m
      ]);
    }

module _ (b : BidBook) (w : IntentBidSnapshot) (bid : Bid) (v : Inv b) where
  unlisted :
      (id : String) (u : IntentBidSnapshot)
      → lookup id b.bids_by_intent ≡ some u
      → All (λ x. b.next ≢ x) u.bids
  unlisted id u e = All-mono _ _ u.bids (λ x q p. omega (arith, q.0, p)) (v id u e)

  abbrev placed_heap : Map ℕ Bid
  placed_heap = insert b.next bid b.heap

  -- The new reference at the end of the window is seen by the bid's agent only.
  placed_other :
      (agent : String)
      → lookup bid.intent_id b.bids_by_intent ≡ some w
      → agent ≢ bid.agent_id
      → find_bid placed_heap agent (w.bids ++ (b.next ∷ [])) ≡ find_bid b.heap agent w.bids
  placed_other agent at_intent n =
      let fresh =
        find_bid-fresh b.heap agent b.next bid w.bids (unlisted bid.intent_id w at_intent) in
      let s =
        Skips-at placed_heap agent b.next bid (lookup-insert_self b.next bid b.heap)
          (λ p. n (sym p)) in
      elim (Option-cases (find_bid b.heap agent w.bids)) [
        | inl e ↦
            find_bid-append placed_heap agent w.bids b.next (fresh ∙ e)
            ∙ find_next placed_heap agent b.next [] s
            ∙ unfold find_bid in sym e
        | inr (x, e) ↦ find_bid-append_found placed_heap agent w.bids b.next x (fresh ∙ e) ∙ sym e
      ]

  pub place_bid-SetsPrice :
      lookup bid.intent_id b.bids_by_intent ≡ some w
      → find_bid b.heap bid.agent_id w.bids ≡ none
      → SetsPrice b (place_bid b w bid) bid
  place_bid-SetsPrice at_intent f =
      let w' = record w { bids = w.bids ++ (b.next ∷ []) } in
      let fresh =
        find_bid-fresh b.heap bid.agent_id b.next bid w.bids (unlisted bid.intent_id w at_intent) in
      let look = lookup-insert_self bid.intent_id w' b.bids_by_intent in
      record {
        own =
            ap (price_in placed_heap bid.agent_id) look
            ∙ ap price_found (
                find_bid-append placed_heap bid.agent_id w.bids b.next (fresh ∙ f)
                ∙ find_here placed_heap bid.agent_id b.next [] bid
                    (lookup-insert_self b.next bid b.heap) refl);
        others = λ id agent h. elim (Bool-cases (id == bid.intent_id)) [
          | inl t ↦
              let p = beq→eq id bid.intent_id t in
              let n : agent ≢ bid.agent_id = elim h [ inl m ↦ absurd (m p) | inr m ↦ m ] in
              subst (λ i. price_of (place_bid b w bid) i agent ≡ price_of b i agent) (sym p)
                (ap (price_in placed_heap agent) look
                  ∙ ap price_found (placed_other agent at_intent n)
                  ∙ sym (ap (price_in b.heap agent) at_intent))
          | inr t ↦
              let n = λ (p : bid.intent_id ≡ id).
                absurd (ground (arith, t, p, eq_iff id bid.intent_id)) in
              ap (price_in placed_heap agent)
                (lookup-insert_ne bid.intent_id id w' b.bids_by_intent n)
              ∙ same_window b placed_heap id agent
                  (λ u e. find_bid-fresh b.heap agent b.next bid u.bids (unlisted id u e))
        ];
      }
