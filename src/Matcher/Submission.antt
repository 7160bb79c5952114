-- ===== src/Matcher/Submission.antt =====
-- internal/matcher/server.go: `SubmitBid` and `SubmitBidBatch`. The verifier, where there is one,
-- answers whether an address is an active agent's, or fails. The answers' counts are int32 in the
-- code, and a request with 2 ^ 31 bids does not fit a message.
use subnet.Prelude.{
  ℕ, suc, String, Bool, true, false, Option, none, some, List, [], ◌∷◌, ◌++◌, text_Eq, ◌==◌,
  if◌then◌else◌, value_or,
}
use subnet.Map.{lookup, insert}
use subnet.Matcher.{BidStatus, Bid, Server, Services}

pub data Reason : Type 0 where
  no_reason : Reason
  bid_is_nil : Reason
  verification_failed : Reason
  not_registered : Reason
  intent_not_found : Reason
  bidding_window_closed : Reason
  batch_stopped : Reason

pub record BidSubmissionAck : Type 0 where
  pub bid_id : String
  pub accepted : Bool
  pub reason : Reason
  pub status : BidStatus
  pub recorded_at : ℕ

abbrev pub refuse : String → Reason → BidSubmissionAck
refuse id reason = record {
  bid_id = id;
  accepted = false;
  reason = reason;
  status = BidStatus.rejected;
  recorded_at = 0;
}

abbrev pub take_bid : ℕ → Bid → BidSubmissionAck
take_bid now bid = record {
  bid_id = bid.bid_id;
  accepted = true;
  reason = no_reason;
  status = BidStatus.accepted;
  recorded_at = now;
}

-- The chain address of the metadata, or else the agent's identifier.
unfoldable pub extract_chain_address : Services → Bid → String
extract_chain_address v bid = elim (lookup "chain_address" bid.metadata) [
  | none ↦ v.trim_space bid.agent_id
  | some address ↦
      let trimmed = v.trim_space address in
      if trimmed == "" then v.trim_space bid.agent_id else trimmed
]

-- What the verification finds against a bid.
unfoldable pub verify_bid : Services → Option (String → Option Bool) → Server → Bid → Option Reason
verify_bid v none s bid = none
verify_bid v (some verify_agent) s bid = elim (verify_agent (extract_chain_address v bid)) [
  | none ↦ if s.allow_unverified then none else some verification_failed
  | some true ↦ none
  | some false ↦ if s.allow_unverified then none else some not_registered
]

abbrev pub append_bid : Server → Bid → Server
append_bid s bid = record s {
  bids_by_intent =
      insert bid.intent_id (value_or [] (lookup bid.intent_id s.bids_by_intent) ++ (bid ∷ []))
        s.bids_by_intent;
}

-- The part under the lock.
unfoldable pub record_bid : ℕ → Server → Bid → Server × BidSubmissionAck
record_bid now s bid = elim (lookup bid.intent_id s.intents) [
  | none ↦ (s, refuse bid.bid_id intent_not_found)
  | some window ↦
      if window.window_closed
      then (s, refuse bid.bid_id bidding_window_closed)
      else (append_bid s bid, take_bid now bid)
]

unfoldable pub process_single_bid :
    Services → Option (String → Option Bool) → ℕ → Server → Option Bid → Server × BidSubmissionAck
process_single_bid v verifier now s none = (s, refuse "" bid_is_nil)
process_single_bid v verifier now s (some bid) = elim (verify_bid v verifier s bid) [
  | some reason ↦ (s, refuse bid.bid_id reason)
  | none ↦ record_bid now s bid
]

-- `none` is the error for a request without a bid.
unfoldable pub submit_bid :
    Services
    → Option (String → Option Bool)
    → ℕ
    → Server
    → Option Bid
    → Server × Option BidSubmissionAck
submit_bid v verifier now s none = (s, none)
submit_bid v verifier now s (some bid) =
    let (after, ack) = process_single_bid v verifier now s (some bid) in (after, some ack)

pub record SubmitBidBatchResponse : Type 0 where
  pub acks : List BidSubmissionAck
  pub success : ℕ
  pub failed : ℕ

abbrev pub stopped : Bid → BidSubmissionAck
stopped bid = refuse bid.bid_id batch_stopped

-- The loop, from its end: the bids that are left and what is answered for them.
abbrev count_success : BidSubmissionAck → SubmitBidBatchResponse → SubmitBidBatchResponse
count_success ack r = record { acks = ack ∷ r.acks; success = suc r.success; failed = r.failed }

abbrev count_failure : BidSubmissionAck → SubmitBidBatchResponse → SubmitBidBatchResponse
count_failure ack r = record { acks = ack ∷ r.acks; success = r.success; failed = suc r.failed }

unfoldable pub stop_batch : List Bid → SubmitBidBatchResponse
stop_batch [] = record { acks = []; success = 0; failed = 0 }
stop_batch (bid ∷ bids) = count_failure (stopped bid) (stop_batch bids)

-- What one round adds to the rounds after it, which do not happen where the batch stops.
unfoldable pub go_on :
    Bool
    → List Bid
    → Server × BidSubmissionAck
    → Server × SubmitBidBatchResponse
    → Server × SubmitBidBatchResponse
go_on partial_ok bids (after, ack) (last, rest) =
    if ack.accepted
    then (last, count_success ack rest)
    else if partial_ok
    then (last, count_failure ack rest)
    else (after, count_failure ack (stop_batch bids))

-- The lock is given back after each bid: `others k` is what other calls do to the server before the
-- bid at position `k` is recorded, and `clock k` the time then.
unfoldable pub process_bids :
    Services
    → Option (String → Option Bool)
    → (ℕ → ℕ)
    → (ℕ → Server → Server)
    → Bool
    → ℕ
    → Server
    → List Bid
    → Server × SubmitBidBatchResponse
process_bids v verifier clock others partial_ok k s [] =
    (s, record { acks = []; success = 0; failed = 0 })
process_bids v verifier clock others partial_ok k s (bid ∷ bids) =
    let one = process_single_bid v verifier (clock k) (others k s) (some bid) in
    go_on partial_ok bids one (process_bids v verifier clock others partial_ok (suc k) one.0 bids)

-- `none` is the error for a request without bids.
unfoldable pub submit_bid_batch :
    Services
    → Option (String → Option Bool)
    → (ℕ → ℕ)
    → (ℕ → Server → Server)
    → Server
    → List Bid
    → Option Bool
    → Server × Option SubmitBidBatchResponse
submit_bid_batch v verifier clock others s [] partial_ok = (s, none)
submit_bid_batch v verifier clock others s (bid ∷ bids) partial_ok =
    let (after, response) =
      process_bids v verifier clock others (value_or false partial_ok) 0 s (bid ∷ bids) in
    (after, some response)
