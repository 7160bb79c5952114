-- ===== src/Node.antt =====
-- internal/validator/handlers.go: the calls by which a validator node takes part in a round for a
-- checkpoint. The lock makes each call one step, but for `HandleFinalized`, which may give the lock up
-- while it submits and is then two steps with other calls between them. Hashing, the node's signer and the verifier of signatures are the fields of
-- `Crypto`. What the node asks of its chain, its storage and the root layer, whose answers it only
-- logs, is a list of requests. The node keeps the fields that these calls read or write.
pub mod Rounds
pub mod Calls
pub mod Reached
use subnet.Prelude.{
  ℕ, ◌+◌, String, Bool, true, false, not, ◌&&◌, Option, none, some, List, [], ◌∷◌, ltb, nat_eq,
  text_Eq, ◌==◌, if◌then◌else◌, is_empty,
}
use subnet.Map.{Map, lookup, insert}
use subnet.Bytes.{Bytes, bytes_Eq}
use subnet.Validators.{Validator, ValidatorSet, get_validator, u64}
use subnet.Crypto.Hasher.{CheckpointHeader, compute_hash}
use subnet.Reports.{ExecutionReport}
use subnet.Consensus.{State, finalized, Time, is_idle}
use subnet.Consensus.Leader.{Tracker, new_tracker, leader}
use subnet.Consensus.StateMachine.{
  StateMachine, Reply, done, refused, panicked, propose_header, reset,
}
use subnet.Consensus.StateMachine

pub record Signature : Type 0 where
  pub algo : String
  pub der : Bytes
  pub pubkey : Bytes
  pub msg_hash : Bytes
  pub signer_id : String

pub record Node : Type 0 where
  pub id : String
  pub validator_set : ValidatorSet
  pub fsm : StateMachine CheckpointHeader Signature
  pub leader_tracker : Tracker
  pub pending_reports : Map String ExecutionReport
  pub report_scores : Map String ℕ
  pub current_epoch : ℕ
  pub current_checkpoint : Option CheckpointHeader
  pub signatures : Map String Signature
  pub last_checkpoint_at : Time
  pub is_leader : Bool

-- `sign` is the node's key, with the public key beside it; `verify` takes a public key, a hash and
-- a signature.
pub record Crypto : Type 0 where
  pub sha256 : Bytes → Bytes
  pub sign : Bytes → Option Bytes
  pub public_key : Bytes
  pub verify : Bytes → Bytes → Bytes → Bool

pub data NodeError : Type 0 where
  past_epoch : NodeError
  future_epoch : NodeError
  fsm_refused : State → NodeError
  failed_to_sign : NodeError
  no_active_checkpoint : NodeError
  unknown_validator : NodeError
  signature_missing : NodeError
  verification_failed : NodeError
  double_sign : NodeError

pub data Request : Type 0 where
  save_evidence : String → ℕ → Bytes → Bytes → Request
  add_to_chain : CheckpointHeader → Request
  save_checkpoint : CheckpointHeader → Request
  submit : CheckpointHeader → Map String ExecutionReport → Map String Signature → Request

-- What a call leaves: the node, its requests and the error, or a panic.
pub data Answer : Type 0 where
  replied : Node → List Request → Option NodeError → Answer
  crashed : Answer

unfoldable pub new_node : String → ValidatorSet → Option ℕ → ℕ → Node
new_node id vs collect_timeout propose_timeout = record {
  id = id;
  validator_set = vs;
  fsm = StateMachine.new_state_machine vs collect_timeout;
  leader_tracker = new_tracker vs propose_timeout;
  pending_reports = [];
  report_scores = [];
  current_epoch = 0;
  current_checkpoint = none;
  signatures = [];
  last_checkpoint_at = none;
  is_leader = false;
}

-- `leader != nil && leader.ID == n.id`
abbrev pub is_me : String → Option Validator → Bool
is_me id none = false
is_me id (some v) = v.id == id

unfoldable pub validate_proposal : Node → CheckpointHeader → Option NodeError
validate_proposal n header =
    let too_far = ltb (u64 (n.current_epoch + 1)) header.epoch in
    elim n.current_checkpoint [
      | none ↦ if too_far then some future_epoch else none
      | some current ↦
          if ltb header.epoch current.epoch
          then some past_epoch
          else if too_far
          then some future_epoch
          else none
    ]

abbrev pub signer : Signature → String
signer sig = sig.signer_id

module _ (c : Crypto) where
  unfoldable pub sign_checkpoint : Node → CheckpointHeader → Option Signature
  sign_checkpoint n header = elim (c.sign (compute_hash c.sha256 header)) [
    | none ↦ none
    | some der ↦ some (record {
      algo = "ECDSA-secp256k1";
      der = der;
      pubkey = c.public_key;
      msg_hash = compute_hash c.sha256 header;
      signer_id = n.id;
    })
  ]

  abbrev pub verified_by : CheckpointHeader → Signature → Option Validator → Option NodeError
  verified_by header sig none = some unknown_validator
  verified_by header sig (some validator) =
      if is_empty sig.der
      then some signature_missing
      else if c.verify validator.pub_key (compute_hash c.sha256 header) sig.der
      then none
      else some verification_failed

  -- The checkpoint is the current one, which the caller has found.
  unfoldable pub verify_signature : Node → CheckpointHeader → Signature → Option NodeError
  verify_signature n header sig =
      verified_by header sig (get_validator sig.signer_id n.validator_set.validators)

  -- The node after its own signature went to the FSM.
  abbrev pub own_signed :
      Node → CheckpointHeader → Signature → Reply (StateMachine CheckpointHeader Signature) → Answer
  own_signed n header sig (done fsm) =
      replied
        (record n {
          fsm = fsm;
          signatures = insert n.id sig n.signatures;
          current_checkpoint = some header;
        })
        [] none
  own_signed n header sig (refused state) =
      replied (record n { signatures = insert n.id sig n.signatures }) [] (some (fsm_refused state))
  own_signed n header sig panicked = crashed

  abbrev pub sign_proposal : ℕ → Node → CheckpointHeader → Option Signature → Answer
  sign_proposal now n header none = replied n [] (some failed_to_sign)
  sign_proposal now n header (some sig) =
      own_signed n header sig (StateMachine.add_signature signer n.fsm sig now)

  abbrev pub proposed :
      ℕ → Node → CheckpointHeader → Reply (StateMachine CheckpointHeader Signature) → Answer
  proposed now n header (done fsm) =
      sign_proposal now (record n { fsm = fsm }) header
        (sign_checkpoint (record n { fsm = fsm }) header)
  proposed now n header (refused state) = replied n [] (some (fsm_refused state))
  proposed now n header panicked = crashed

  abbrev pub restart : Node → Node
  restart n = record n { fsm = reset n.fsm; signatures = [] }

  -- The node has asked its tracker for the leader of the epoch.
  unfoldable pub take_proposal : ℕ → Node → CheckpointHeader → Bool → Answer
  take_proposal now n header leads =
      if leads && not (is_idle n.fsm.state)
      then replied n [] none
      else (elim (validate_proposal n header) [
        | some e ↦ replied n [] (some e)
        | none ↦
            let m = if not leads && not (is_idle n.fsm.state) then restart n else n in
            proposed now m header (propose_header m.fsm (some header) now)
      ])

  unfoldable pub handle_proposal : ℕ → Node → CheckpointHeader → Answer
  handle_proposal now n header =
      let (tracker, index, v) = leader n.leader_tracker header.epoch in
      take_proposal now (record n { leader_tracker = tracker }) header (is_me n.id v)

  abbrev pub signed_by_other :
      Node → Signature → Reply (StateMachine CheckpointHeader Signature) → Answer
  signed_by_other n sig (done fsm) =
      replied (record n { fsm = fsm; signatures = insert sig.signer_id sig n.signatures }) [] none
  signed_by_other n sig (refused state) = replied n [] (some (fsm_refused state))
  signed_by_other n sig panicked = crashed

  -- A signature that verifies for the current checkpoint.
  unfoldable pub store_verified : ℕ → Node → CheckpointHeader → Signature → Answer
  store_verified now n header sig = elim (lookup sig.signer_id n.signatures) [
    | some existing ↦
        if existing.der == sig.der
        then replied n [] none
        else replied n (save_evidence sig.signer_id header.epoch existing.der sig.der ∷ [])
            (some double_sign)
    | none ↦ signed_by_other n sig (StateMachine.add_signature signer n.fsm sig now)
  ]

  unfoldable pub add_signature : ℕ → Node → Signature → Answer
  add_signature now n sig = elim n.current_checkpoint [
    | none ↦ replied n [] (some no_active_checkpoint)
    | some header ↦ elim (verify_signature n header sig) [
      | some e ↦ replied n [] (some e)
      | none ↦ store_verified now n header sig
    ]
  ]

abbrev changed : Bool → Bool → Bool
changed before after = if before then not after else after

-- The next epoch, and whom it makes the leader.
abbrev pub enter_epoch : Node → ℕ → Node
enter_epoch n epoch =
    let (tracker, index, v) = leader n.leader_tracker epoch in
    record n {
      current_epoch = epoch;
      fsm = reset n.fsm;
      signatures = [];
      pending_reports = [];
      report_scores = [];
      leader_tracker = tracker;
      is_leader = is_me n.id v;
      last_checkpoint_at =
          if changed n.is_leader (is_me n.id v) then none else n.last_checkpoint_at;
    }

abbrev is_finalized : State → Bool
is_finalized finalized = true
is_finalized _ = false

-- Has the leader of the epoch reports to submit?
abbrev pub submits : Node → CheckpointHeader → Bool
submits n header =
    is_me n.id (leader n.leader_tracker header.epoch).2
    && (not (is_empty n.pending_reports) && not (is_finalized n.fsm.state))

-- A checkpoint for the epoch in which the node has a round.
abbrev pub ends_round : Node → CheckpointHeader → Bool
ends_round n header = header.epoch == n.current_epoch && not (is_idle n.fsm.state)

-- Does the call give the lock up in order to submit?
abbrev pub gives_up_lock : Node → CheckpointHeader → Bool
gives_up_lock n header =
    not (ltb n.current_epoch header.epoch) && (ends_round n header && submits n header)

-- The node with a finalised checkpoint, after it asked for the epoch's leader.
abbrev pub with_checkpoint : Node → CheckpointHeader → Node
with_checkpoint n header = record n {
  current_checkpoint = some header;
  leader_tracker = (leader n.leader_tracker header.epoch).0;
}

-- `HandleFinalized` as far as it holds the lock at first: the whole call, or all that is before the
-- submission.
unfoldable pub begin_finalized : Node → CheckpointHeader → Answer
begin_finalized n header =
    let keep = add_to_chain header ∷ save_checkpoint header ∷ [] in
    if ltb n.current_epoch header.epoch
    then replied
        (enter_epoch (record n { current_checkpoint = some header }) (u64 (header.epoch + 1))) keep
        none
    else if not (ends_round n header)
    then replied n [] none
    else if submits n header
    then replied (with_checkpoint n header)
        (add_to_chain header
          ∷ save_checkpoint header
          ∷ submit header n.pending_reports n.signatures
          ∷ [])
        none
    else replied (enter_epoch (with_checkpoint n header) (u64 (n.current_epoch + 1))) keep none

-- The rest of the call after a submission, when it has the lock again.
unfoldable pub end_finalized : Node → Node
end_finalized n = enter_epoch n (u64 (n.current_epoch + 1))

unfoldable get_signatures : Node → ℕ → List (String × Signature)
get_signatures n epoch = elim n.current_checkpoint [
  | none ↦ []
  | some header ↦ if header.epoch == epoch then n.signatures else []
]
