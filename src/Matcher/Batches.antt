-- ===== src/Matcher/Batches.antt =====
-- What `SubmitBidBatch` answers and leaves behind.
use subnet.Prelude.{
  ℕ, suc, ◌+◌, String, ◌≡◌, refl, sym, ap, ap₂, subst, inl, inr, Bool, true, false, not, ◌&&◌,
  Option, none, some, List, [], ◌∷◌, map, arith, text_Eq, if◌then◌else◌, Bool-cases, Option-cases,
  value_or, is_some, length,
}
use subnet.Map.{lookup}
use subnet.Matcher.{Bid, Server, Services}
use subnet.Matcher.Submission.{
  BidSubmissionAck, SubmitBidBatchResponse, verify_bid, append_bid, record_bid, process_single_bid,
  stop_batch, go_on, process_bids, submit_bid_batch,
}

-- `if partial_ok` and the bids before it decide the verdict on each bid: with it every bid is
-- judged for itself, without it all bids behind a refused one are refused.
abbrev pub verdicts : Bool → List Bool → List Bool
verdicts partial_ok [] = []
verdicts partial_ok (true ∷ good) = true ∷ verdicts partial_ok good
verdicts true (false ∷ good) = false ∷ verdicts true good
verdicts false (false ∷ good) = false ∷ map (λ b. false) good

abbrev pub count_true : List Bool → ℕ
count_true [] = 0
count_true (true ∷ bs) = suc (count_true bs)
count_true (false ∷ bs) = count_true bs

abbrev pub is_open : Server → Bid → Bool
is_open s bid = elim (lookup bid.intent_id s.intents) [
  | none ↦ false
  | some window ↦ not window.window_closed
]

module _ (v : Services) (verifier : Option (String → Option Bool)) where
  -- The verification finds nothing, and the intent has an open window.
  abbrev pub is_welcome : Server → Bid → Bool
  is_welcome s bid = not (is_some (verify_bid v verifier s bid)) && is_open s bid

  -- A single bid is accepted and appended, or refused without a trace.
  pub data Single (s : Server) (bid : Bid) : Bool → Server × BidSubmissionAck → Type 0 where
    taken :
        (ack : BidSubmissionAck)
        → ack.bid_id ≡ bid.bid_id
        → ack.accepted ≡ true
        → Single s bid true (append_bid s bid, ack)
    refused :
        (ack : BidSubmissionAck)
        → ack.bid_id ≡ bid.bid_id
        → ack.accepted ≡ false
        → Single s bid false (s, ack)

  record_bid-Single :
      (now : ℕ) (s : Server) (bid : Bid) → Single s bid (is_open s bid) (record_bid now s bid)
  unfolding record_bid
  record_bid-Single now s bid = elim (Option-cases (lookup bid.intent_id s.intents)) [
    | inl n ↦ rw (record_bid, is_open, n) (refused _ refl refl)
    | inr (w, y) ↦ elim (Bool-cases w.window_closed) [
      | inl c ↦ rw (record_bid, is_open, y, c) (refused _ refl refl)
      | inr o ↦ rw (record_bid, is_open, y, o) (taken _ refl refl)
    ]
  ]

  pub process-Single :
      (now : ℕ) (s : Server) (bid : Bid)
      → Single s bid (is_welcome s bid) (process_single_bid v verifier now s (some bid))
  unfolding process_single_bid
  process-Single now s bid = elim (Option-cases (verify_bid v verifier s bid)) [
    | inl n ↦ rw (process_single_bid, is_welcome, n) (record_bid-Single now s bid)
    | inr (r, y) ↦ rw (process_single_bid, is_welcome, y) (refused _ refl refl)
  ]

  -- What a bid leaves of the server that it meets.
  abbrev pub after_bid : Server → Bid → Server
  after_bid s bid = if is_welcome s bid then append_bid s bid else s

  Single-after :
      (s : Server) (bid : Bid) (b : Bool) (one : Server × BidSubmissionAck)
      → Single s bid b one
      → one.0 ≡ (if b then append_bid s bid else s)
  Single-after s bid true (after, ack) (taken _ e a) = refl
  Single-after s bid false (after, ack) (refused _ e a) = refl

  module _ (others : ℕ → Server → Server) where
    -- Is each bid welcome to the server that it meets?
    abbrev pub welcomes : ℕ → Server → List Bid → List Bool
    welcomes k s [] = []
    welcomes k s (bid ∷ bids) =
        is_welcome (others k s) bid ∷ welcomes (suc k) (after_bid (others k s) bid) bids

    -- The server in the end: it met the other calls and got the accepted bids between them, and
    -- without `partial_ok` it got nothing more behind a refused bid.
    abbrev pub ends : Bool → ℕ → Server → List Bid → Server
    ends partial_ok k s [] = s
    ends partial_ok k s (bid ∷ bids) =
        let rest = ends partial_ok (suc k) (after_bid (others k s) bid) bids in
        if is_welcome (others k s) bid then rest else if partial_ok then rest else others k s

    all_refused :
        (k : ℕ) (s : Server) (bids : List Bid)
        → map (λ b. false) (welcomes k s bids) ≡ map (λ b. false) bids
    all_refused k s [] = refl
    all_refused k s (bid ∷ bids) = ap (λ l. false ∷ l) (all_refused (suc k) _ bids)

  -- The answers and the server that belong to a list of verdicts.
  pub record Answered (bids : List Bid) (good : List Bool) (last : Server)
      (r : Server × SubmitBidBatchResponse) : Type 0 where
    pub ids : map (λ ack. ack.bid_id) r.1.acks ≡ map (λ bid. bid.bid_id) bids
    pub flags : map (λ ack. ack.accepted) r.1.acks ≡ good
    pub successes : r.1.success ≡ count_true good
    pub failures : r.1.success + r.1.failed ≡ length bids
    pub state : r.0 ≡ last

  stop-Answered :
      (s : Server) (bids : List Bid) → Answered bids (map (λ b. false) bids) s (s, stop_batch bids)
  unfolding stop_batch
  stop-Answered s [] = record {
    ids = refl;
    flags = refl;
    successes = refl;
    failures = refl;
    state = refl;
  }
  stop-Answered s (bid ∷ bids) =
      let rest = stop-Answered s bids in
      record {
        ids = ap (λ l. bid.bid_id ∷ l) rest.ids;
        flags = ap (λ l. false ∷ l) rest.flags;
        successes = rest.successes;
        failures = omega (arith, rest.failures);
        state = refl;
      }

  go_on-Answered :
      (partial_ok : Bool) (s : Server) (bid : Bid) (bids : List Bid) (b : Bool) (good : List Bool)
      (last : Server) (one : Server × BidSubmissionAck) (rest : Server × SubmitBidBatchResponse)
      → map (λ b. false) good ≡ map (λ b. false) bids
      → Single s bid b one
      → Answered bids (verdicts partial_ok good) last rest
      → Answered
          (bid ∷ bids)
          (verdicts partial_ok (b ∷ good))
          (if b then last else if partial_ok then last else s)
          (go_on partial_ok bids one rest)
  unfolding go_on
  go_on-Answered partial_ok s bid bids true good last (after, ack) rest m (taken _ e a) h =
      rw (go_on, a)
        (record {
          ids = ap₂ (λ x l. x ∷ l) e h.ids;
          flags = ap (λ l. true ∷ l) h.flags;
          successes = ap suc h.successes;
          failures = omega (arith, h.failures);
          state = h.state;
        })
  go_on-Answered true s bid bids false good last (after, ack) rest m (refused _ e a) h =
      rw (go_on, a)
        (record {
          ids = ap₂ (λ x l. x ∷ l) e h.ids;
          flags = ap (λ l. false ∷ l) h.flags;
          successes = h.successes;
          failures = omega (arith, h.failures);
          state = h.state;
        })
  go_on-Answered false s bid bids false good last (after, ack) rest m (refused _ e a) h =
      let k = subst (λ g. Answered bids g s (s, stop_batch bids)) (sym m) (stop-Answered s bids) in
      rw (go_on, a)
        (record {
          ids = ap₂ (λ x l. x ∷ l) e k.ids;
          flags = ap (λ l. false ∷ l) k.flags;
          successes = k.successes;
          failures = omega (arith, k.failures);
          state = refl;
        })

module _ (v : Services) (verifier : Option (String → Option Bool)) (clock : ℕ → ℕ)
    (others : ℕ → Server → Server) where
  process-Answered :
      (partial_ok : Bool) (k : ℕ) (s : Server) (bids : List Bid)
      → Answered v verifier bids
          (verdicts partial_ok (welcomes v verifier others k s bids))
          (ends v verifier others partial_ok k s bids)
          (process_bids v verifier clock others partial_ok k s bids)
  unfolding process_bids
  process-Answered partial_ok k s [] = record {
    ids = refl;
    flags = refl;
    successes = refl;
    failures = refl;
    state = refl;
  }
  process-Answered partial_ok k s (bid ∷ bids) =
      let t = others k s in
      let one = process_single_bid v verifier (clock k) t (some bid) in
      let rest = process_bids v verifier clock others partial_ok (suc k) one.0 bids in
      let single = process-Single v verifier (clock k) t bid in
      let after = after_bid v verifier t bid in
      go_on-Answered v verifier partial_ok t bid bids (is_welcome v verifier t bid)
        (welcomes v verifier others (suc k) after bids)
        (ends v verifier others partial_ok (suc k) after bids) one rest
        (all_refused v verifier others (suc k) after bids) single
        (subst
          (λ u.
            Answered v verifier bids
              (verdicts partial_ok (welcomes v verifier others (suc k) u bids))
              (ends v verifier others partial_ok (suc k) u bids) rest)
          (Single-after v verifier t bid (is_welcome v verifier t bid) one single)
          (process-Answered partial_ok (suc k) one.0 bids))

-- A batch without bids is an error that changes nothing. Otherwise, whatever other calls do between
-- the bids, there is one answer for each bid, in order: with `partial_ok` a bid is accepted exactly
-- if its agent passes the verification and its intent has an open window in the server that it
-- meets; without it, or when it is missing, the bids behind a refused one are refused too. The
-- counts are those of the accepted and the other bids, and each accepted bid is appended to the
-- server that it meets, which is all that the batch changes.
pub submit_bid_batch_lem :
    (v : Services) (verifier : Option (String → Option Bool)) (clock : ℕ → ℕ)
    (others : ℕ → Server → Server) (s : Server) (partial_ok : Option Bool) (bid : Bid)
    (bids : List Bid)
    → (submit_bid_batch v verifier clock others s [] partial_ok ≡ (s, none))
      × ((r : SubmitBidBatchResponse) × ((submit_bid_batch v verifier clock others s
              (bid ∷ bids)
              partial_ok).1
            ≡ some r)
          × Answered v verifier
              (bid ∷ bids)
              (verdicts (value_or false partial_ok) (welcomes v verifier others 0 s (bid ∷ bids)))
              (ends v verifier others (value_or false partial_ok) 0 s (bid ∷ bids))
              ((submit_bid_batch v verifier clock others s (bid ∷ bids) partial_ok).0, r))
unfolding submit_bid_batch
submit_bid_batch_lem v verifier clock others s partial_ok bid bids = (
  refl,
  (
    (process_bids v verifier clock others (value_or false partial_ok) 0 s (bid ∷ bids)).1,
    refl,
    process-Answered v verifier clock others (value_or false partial_ok) 0 s (bid ∷ bids),
  ),
)
