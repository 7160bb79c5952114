-- ===== src/Bids/Invariant.antt =====
-- The references of the book stay in order: each window's lead to bids on its intent.
use subnet.Prelude.{
  ℕ, String, ◌≡◌, refl, sym, ap, subst, ◌∙◌, ◌⊎◌, inl, inr, true, some, [], ◌∷◌, ◌++◌, arith,
  nat_beq_iff, nat_eq, text_Eq, ◌==◌, Bool-cases, some_eq, is_some, beq→eq, All, All-mono,
  All-append,
}
use subnet.Map.{Map, lookup, insert, lookup-insert, lookup-insert_self, lookup-insert_ne}
use subnet.Bids.{
  Bid, Intent, IntentBidSnapshot, BidBook, new_bid_book, new_snapshot, start_bidding, close_window,
  improve_bid, place_bid,
}
use subnet.Bids.Prices.{IsBidOn, Inv, intent_of}

-- A map with one entry replaced: every entry is the new one or an old one of another key.
insert_cases :
    (k j : String) (w u : IntentBidSnapshot) (m : Map String IntentBidSnapshot)
    → lookup j (insert k w m) ≡ some u
    → ((k ≡ j) × (w ≡ u)) ⊎ (lookup j m ≡ some u)
insert_cases k j w u m e = elim (Bool-cases (k == j)) [
  | inl t ↦ inl (beq→eq k j t, some_eq (ground (arith, e, t, lookup-insert k j w m)))
  | inr f ↦ inr (ground (arith, e, f, lookup-insert k j w m))
]

-- A new list in the window of one intent.
window-Inv :
    (b b' : BidBook) (id : String) (w : IntentBidSnapshot)
    → b'.bids_by_intent ≡ insert id w b.bids_by_intent
    → ((j : String) (x : ℕ) → IsBidOn b j x → IsBidOn b' j x)
    → All (IsBidOn b' id) w.bids
    → Inv b
    → Inv b'
window-Inv b b' id w e mono new v j u f =
    elim (insert_cases id j w u b.bids_by_intent (sym (ap (λ m. lookup j m) e) ∙ f)) [
      | inl (p, q) ↦
          subst (λ k. All (IsBidOn b' k) u.bids) p (subst (λ z. All (IsBidOn b' id) z.bids) q new)
      | inr h ↦ All-mono _ _ u.bids (mono j) (v j u h)
    ]

pub close_window-Inv :
    (b : BidBook) (id : String) (w : IntentBidSnapshot)
    → lookup id b.bids_by_intent ≡ some w
    → Inv b
    → Inv (close_window b id w)
close_window-Inv b id w e v =
    window-Inv b (close_window b id w) id (record w { bidding_closed = true }) refl (λ j x h. h)
      (v id w e) v

pub improve_bid-Inv :
    (b : BidBook) (r : ℕ) (old bid : Bid)
    → lookup r b.heap ≡ some old
    → Inv b
    → Inv (improve_bid b r old bid)
improve_bid-Inv b r old bid y v j u e =
    All-mono _ _ u.bids
      (λ x (lt, (c, z, i)). elim (Bool-cases (r == x)) [
        | inl t ↦
            let new = record old {
              price = bid.price;
              submitted_at = bid.submitted_at;
              signature = bid.signature;
            } in
            let p = beq→eq r x t in
            (
              lt,
              (
                new,
                ap (λ (k : ℕ). lookup k (insert r new b.heap)) (sym p)
                    ∙ lookup-insert_self r new b.heap,
                ap intent_of (some_eq (sym y ∙ ap (λ (k : ℕ). lookup k b.heap) p ∙ z)) ∙ i,
              ),
            )
        | inr f ↦ (
          lt,
          (
            c,
            lookup-insert_ne r x _ b.heap (λ p. absurd (ground (arith, f, p, nat_beq_iff r x))) ∙ z,
            i,
          ),
        )
      ])
      (v j u e)

pub place_bid-Inv :
    (b : BidBook) (w : IntentBidSnapshot) (bid : Bid)
    → lookup bid.intent_id b.bids_by_intent ≡ some w
    → Inv b
    → Inv (place_bid b w bid)
place_bid-Inv b w bid e v =
    let mono : (j : String) (x : ℕ) → IsBidOn b j x → IsBidOn (place_bid b w bid) j x = λ j x h. (
      omega (arith, h.0),
      (h.1.0, lookup-insert_ne b.next x bid b.heap (λ p. omega (arith, p, h.0)) ∙ h.1.1, h.1.2),
    ) in
    let new : IsBidOn (place_bid b w bid) bid.intent_id b.next =
      (omega arith, (bid, lookup-insert_self b.next bid b.heap, refl)) in
    window-Inv b (place_bid b w bid) bid.intent_id (record w { bids = w.bids ++ (b.next ∷ []) })
      refl mono
      (All-append _ w.bids (b.next ∷ [])
        (All-mono _ _ w.bids (mono bid.intent_id) (v bid.intent_id w e)) (new, tt))
      v

pub new_bid_book-Inv : Inv new_bid_book
unfolding new_bid_book lookup
new_bid_book-Inv id w e = absurd (ground (arith, e))

pub start_bidding-Inv : (b : BidBook) (intent : Intent) → Inv b → Inv (start_bidding b intent).0
unfolding start_bidding
start_bidding-Inv b intent v =
    elim (Bool-cases (is_some (lookup intent.intent_id b.bids_by_intent))) [
      | inl s ↦ rw (s, start_bidding) v
      | inr f ↦
          rw (f, start_bidding)
            (window-Inv b
              (record b {
                bids_by_intent = insert intent.intent_id (new_snapshot intent) b.bids_by_intent;
              })
              intent.intent_id (new_snapshot intent) refl (λ j x h. h) tt v)
    ]
