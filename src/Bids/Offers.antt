-- ===== src/Bids/Offers.antt =====
-- When `AddBid` accepts a bid, and what it leaves behind.
use subnet.Prelude.{
  ℕ, ◌≤◌, ◌<◌, String, ◌≡◌, refl, sym, ap, subst, ◌∙◌, inl, inr, true, false, Option, none, some,
  eq_iff, arith, ltb, ltb→lt, nat_eq, text_Eq, ◌==◌, Bool-cases, Option-cases, some_eq, beq→eq,
}
use subnet.Map.{lookup, lookup-insert_self, lookup-insert_ne}
use subnet.Bids.{
  Bid, BidError, IntentBidSnapshot, BidBook, find_bid, close_window, improve_bid, place_bid, offer,
  add_bid,
}
use subnet.Bids.Heap.{find_bid-found}
use subnet.Bids.Prices.{
  price_of, price_in, price_found, Inv, SetsPrice, improve_bid-SetsPrice, place_bid-SetsPrice,
}
use subnet.Bids.Invariant.{close_window-Inv, improve_bid-Inv, place_bid-Inv}

-- When a bid counts: its intent has a window, not closed and not past its end, and its agent has no
-- bid there or a dearer one.
abbrev IsWelcome : ℕ → BidBook → Bid → Type 0
IsWelcome now b bid =
    ((w : IntentBidSnapshot) × (lookup bid.intent_id b.bids_by_intent ≡ some w)
      × (w.bidding_closed ≡ false)
      × (now ≤ w.bidding_end_time))
    × ((p : ℕ) → price_of b bid.intent_id bid.agent_id ≡ some p → bid.price < p)

-- Nobody's price changes.
abbrev IsQuiet : BidBook → BidBook → Type 0
IsQuiet b b' = (id agent : String) → price_of b' id agent ≡ price_of b id agent

-- What a call of `AddBid` may do.
pub data Outcome (now : ℕ) (b : BidBook) (bid : Bid) : BidBook × Option BidError → Type 0 where
  accepted :
      (b' : BidBook)
      → IsWelcome now b bid
      → SetsPrice b b' bid
      → Inv b'
      → Outcome now b bid (b', none)
  rejected :
      (b' : BidBook) (e : BidError)
      → ¬ IsWelcome now b bid
      → IsQuiet b b'
      → Inv b'
      → Outcome now b bid (b', some e)

offer-Outcome :
    (now : ℕ) (b : BidBook) (w : IntentBidSnapshot) (bid : Bid) (f : Option (ℕ × Bid))
    → Inv b
    → lookup bid.intent_id b.bids_by_intent ≡ some w
    → w.bidding_closed ≡ false
    → now ≤ w.bidding_end_time
    → find_bid b.heap bid.agent_id w.bids ≡ f
    → Outcome now b bid (offer b w bid)
unfolding offer
offer-Outcome now b w bid none v e c t f =
    rw (f, offer)
      (accepted (place_bid b w bid)
        (
          (w, e, c, t),
          λ p q. absurd (
              let price : price_of b bid.intent_id bid.agent_id ≡ none =
                ap (price_in b.heap bid.agent_id) e ∙ ap price_found f in
              ground (arith, sym q ∙ price)),
        )
        (place_bid-SetsPrice b w bid v e f) (place_bid-Inv b w bid e v))
offer-Outcome now b w bid (some (r, old)) v e c t f =
    let price : price_of b bid.intent_id bid.agent_id ≡ some old.price =
      ap (price_in b.heap bid.agent_id) e ∙ ap price_found f in
    elim (Bool-cases (ltb bid.price old.price)) [
      | inl less ↦
          rw (f, offer, less)
            (accepted (improve_bid b r old bid)
              (
                (w, e, c, t),
                λ p q. omega (arith, ltb→lt bid.price old.price less, some_eq (sym price ∙ q)),
              )
              (improve_bid-SetsPrice b w bid old r v e f)
              (improve_bid-Inv b r old bid (find_bid-found b.heap bid.agent_id w.bids r old f).0 v))
      | inr dear ↦
          rw (f, offer, dear)
            (rejected b BidError.already_submitted (λ h. ground (arith, dear, h.1 old.price price))
              (λ id agent. refl) v)
    ]

close_window-IsQuiet :
    (b : BidBook) (id : String) (w : IntentBidSnapshot)
    → lookup id b.bids_by_intent ≡ some w
    → IsQuiet b (close_window b id w)
close_window-IsQuiet b id w e j agent = elim (Bool-cases (id == j)) [
  | inl t ↦
      subst (λ (k : String). price_of (close_window b id w) k agent ≡ price_of b k agent)
        (beq→eq id j t)
        (ap (price_in b.heap agent)
            (lookup-insert_self id (record w { bidding_closed = true }) b.bids_by_intent)
          ∙ sym (ap (price_in b.heap agent) e))
  | inr f ↦ ap (price_in b.heap agent) (
      lookup-insert_ne id j (record w { bidding_closed = true }) b.bids_by_intent
        (λ p. absurd (ground (arith, f, p, eq_iff id j))))
]

same_window_eq :
    (b : BidBook) (id : String) (w u : IntentBidSnapshot)
    → lookup id b.bids_by_intent ≡ some w
    → lookup id b.bids_by_intent ≡ some u
    → u ≡ w
same_window_eq b id w u e f = some_eq (sym f ∙ e)

-- A bid is accepted exactly when it is welcome: its intent has an open window and its agent has no
-- bid there or a dearer one. Then its price becomes the agent's price for the intent and all other
-- prices stay; a refused bid changes no price. The references of the book stay in order.
pub add_bid-Outcome :
    (now : ℕ) (b : BidBook) (bid : Bid) → Inv b → Outcome now b bid (add_bid now b bid)
unfolding add_bid
add_bid-Outcome now b bid v = elim (Option-cases (lookup bid.intent_id b.bids_by_intent)) [
  | inl n ↦
      rw (n, add_bid)
        (rejected b BidError.intent_not_found (λ h. ground (arith, sym n ∙ h.0.1))
          (λ id agent. refl) v)
  | inr (w, e) ↦ elim (Bool-cases w.bidding_closed) [
    | inl c ↦
        rw (e, add_bid, c)
          (rejected b BidError.window_closed
            (λ h. ground (
              arith,
              c,
              h.0.2,
              ap (λ (z : IntentBidSnapshot). z.bidding_closed)
                  (same_window_eq b bid.intent_id w h.0.0 e h.0.1),
            ))
            (λ id agent. refl) v)
    | inr o ↦ elim (Bool-cases (ltb w.bidding_end_time now)) [
      | inl x ↦
          simp (e, add_bid, o, x)
            (rejected (close_window b bid.intent_id w) BidError.window_expired
              (λ h. ground (
                arith,
                x,
                h.0.3,
                ap (λ (z : IntentBidSnapshot). z.bidding_end_time)
                    (same_window_eq b bid.intent_id w h.0.0 e h.0.1),
              ))
              (close_window-IsQuiet b bid.intent_id w e) (close_window-Inv b bid.intent_id w e v))
      | inr t ↦
          simp (e, add_bid, o, t)
            (offer-Outcome now b w bid (find_bid b.heap bid.agent_id w.bids) v e o
              (ground (arith, t)) refl)
    ]
  ]
]
