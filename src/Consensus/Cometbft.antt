-- ===== src/Consensus/Cometbft.antt =====
-- internal/consensus/cometbft/abci.go: the application that a CometBFT node runs. The decoders, the
-- encoders and `%d` are parameters. The callbacks that a block starts are a list in its order; a
-- handler is nil or not. The public keys of the genesis validators are their identifiers. The
-- signer, the root layer client and the broadcaster are only called by code that is commented out,
-- and the fixed answers of the snapshot and proposal calls are left out.
pub mod Checked
pub mod Replicated
use subnet.Prelude.{
  ℕ, ◌+◌, ◌*◌, ◌/◌, String, Bool, true, false, Option, none, some, List, [], ◌∷◌, ◌++◌, leb, nat_eq,
  text_Eq, ◌==◌, if◌then◌else◌, is_empty, length,
}
use Prim.Native.String.{◌++◌ as append}
use subnet.Map.{Map, lookup, insert}
use subnet.Bytes.{Bytes}
use subnet.Crypto.Hasher.{CheckpointHeader}
use subnet.Reports.{Int64, ExecutionReport}

pub record ValidationBundleSignature : Type 0 where
  pub intent_id : String
  pub assignment_id : String
  pub agent_id : String
  pub epoch : ℕ
  pub validator_address : String
  pub signature : Bytes

pub record Codec : Type 0 where
  pub decode_header : Bytes → Option CheckpointHeader
  pub decode_report : Bytes → Option ExecutionReport
  pub decode_signature : Bytes → Option ValidationBundleSignature
  pub decode_epoch : Bytes → Option ℕ
  pub encode_header : CheckpointHeader → Bytes
  pub encode_state : ℕ → ℕ → ℕ → Bytes
  pub format_int : Int64 → String

-- Which of the callbacks are set.
pub record ConsensusHandlers : Type 0 where
  pub on_checkpoint_committed : Bool
  pub on_execution_report_committed : Bool
  pub on_validation_signature_collected : Bool

pub record SubnetAbciApp : Type 0 where
  pub handlers : ConsensusHandlers
  pub current_epoch : ℕ
  pub checkpoints : Map ℕ CheckpointHeader
  pub pending_reports : Map String ExecutionReport
  pub latest_block_height : ℕ
  pub latest_app_hash : Bytes
  pub validator_set : Map String ℕ
  pub validation_bundle_signatures : Map ℕ (Map String Bytes)

pub data Callback : Type 0 where
  checkpoint_committed : CheckpointHeader → Callback
  execution_report_committed : ExecutionReport → String → Callback
  validation_signature_collected : ValidationBundleSignature → Callback

pub data Log : Type 0 where
  empty_transaction : Log
  not_decoded : Log
  invalid_epoch : Log
  empty_signature : Log
  empty_validator_address : Log
  unknown_transaction_type : Log

unfoldable pub new_app : ConsensusHandlers → Map String ℕ → SubnetAbciApp
new_app handlers validators = record {
  handlers = handlers;
  current_epoch = 0;
  checkpoints = [];
  pending_reports = [];
  latest_block_height = 0;
  latest_app_hash = [];
  validator_set = validators;
  validation_bundle_signatures = [];
}

abbrev set_powers : Map String ℕ → List (String × ℕ) → Map String ℕ
set_powers m [] = m
set_powers m ((id, power) ∷ vs) = set_powers (insert id power m) vs

unfoldable init_chain : SubnetAbciApp → List (String × ℕ) → SubnetAbciApp
init_chain app validators = record app { validator_set = set_powers [] validators }

abbrev call_if : Bool → Callback → List Callback
call_if true callback = callback ∷ []
call_if false callback = []

-- The state, the callbacks, and the log where the code is 1.
abbrev pub Delivered : Type 0
Delivered = SubnetAbciApp × List Callback × Option Log

module _ (codec : Codec) where
  abbrev pub check_signature : ValidationBundleSignature → Option Log
  check_signature s =
      if s.epoch == 0
      then some invalid_epoch
      else if is_empty s.signature
      then some empty_signature
      else if s.validator_address == ""
      then some empty_validator_address
      else none

  abbrev pub check_header : Bytes → Option Log
  check_header payload = elim (codec.decode_header payload) [
    | none ↦ some not_decoded
    | some h ↦ none
  ]

  abbrev pub check_report : Bytes → Option Log
  check_report payload = elim (codec.decode_report payload) [
    | none ↦ some not_decoded
    | some r ↦ none
  ]

  abbrev pub check_bundle : Bytes → Option Log
  check_bundle payload = elim (codec.decode_signature payload) [
    | none ↦ some not_decoded
    | some s ↦ check_signature s
  ]

  -- `none` is code 0.
  unfoldable pub check_tx : Bytes → Option Log
  check_tx [] = some empty_transaction
  check_tx (kind ∷ payload) =
      if kind == 1
      then check_header payload
      else if kind == 2
      then check_report payload
      else if kind == 3
      then check_bundle payload
      else some unknown_transaction_type

  abbrev pub report_key : ExecutionReport → String
  report_key r = append r.intent_id (
      append ":" (
        append r.assignment_id
          (append ":" (append r.agent_id (append ":" (codec.format_int r.timestamp))))))

  unfoldable pub deliver_checkpoint : SubnetAbciApp → Bytes → Delivered
  deliver_checkpoint app payload = elim (codec.decode_header payload) [
    | none ↦ (app, [], some not_decoded)
    | some h ↦ (
      record app { checkpoints = insert h.epoch h app.checkpoints; current_epoch = h.epoch },
      call_if app.handlers.on_checkpoint_committed (checkpoint_committed h),
      none,
    )
  ]

  unfoldable pub deliver_execution_report : SubnetAbciApp → Bytes → Delivered
  deliver_execution_report app payload = elim (codec.decode_report payload) [
    | none ↦ (app, [], some not_decoded)
    | some r ↦ (
      record app { pending_reports = insert (report_key r) r app.pending_reports },
      call_if app.handlers.on_execution_report_committed
          (execution_report_committed r (report_key r)),
      none,
    )
  ]

  unfoldable pub deliver_validation_bundle_signature : SubnetAbciApp → Bytes → Delivered
  deliver_validation_bundle_signature app payload = elim (codec.decode_signature payload) [
    | none ↦ (app, [], some not_decoded)
    | some s ↦ (
      app,
      call_if app.handlers.on_validation_signature_collected (validation_signature_collected s),
      none,
    )
  ]

  -- One transaction of a block.
  unfoldable pub deliver : SubnetAbciApp → Bytes → Delivered
  deliver app [] = (app, [], some empty_transaction)
  deliver app (kind ∷ payload) =
      if kind == 1
      then deliver_checkpoint app payload
      else if kind == 2
      then deliver_execution_report app payload
      else if kind == 3
      then deliver_validation_bundle_signature app payload
      else (app, [], some unknown_transaction_type)

  -- The state, the callbacks and the results of the transactions.
  unfoldable pub deliver_all :
      SubnetAbciApp → List Bytes → SubnetAbciApp × List Callback × List (Option Log)
  deliver_all app [] = (app, [], [])
  deliver_all app (tx ∷ txs) =
      let (after, calls, log) = deliver app tx in
      let (last, later, logs) = deliver_all after txs in (last, calls ++ later, log ∷ logs)

  unfoldable pub finalize_block :
      SubnetAbciApp → ℕ → List Bytes → SubnetAbciApp × List Callback × List (Option Log)
  finalize_block app height txs = deliver_all (record app { latest_block_height = height }) txs

  unfoldable pub commit : SubnetAbciApp → SubnetAbciApp
  commit app = record app {
    latest_app_hash =
        codec.encode_state app.current_epoch (length app.checkpoints) (length app.pending_reports);
  }

  pub data QueryAnswer : Type 0 where
    no_checkpoints : QueryAnswer
    checkpoint_not_found : QueryAnswer
    bad_request : QueryAnswer
    unknown_query_path : QueryAnswer
    found : Option Bytes → QueryAnswer

  -- `found none` is the encoding of a nil header.
  abbrev encoded : Option CheckpointHeader → Option Bytes
  encoded none = none
  encoded (some h) = some (codec.encode_header h)

  unfoldable pub query : SubnetAbciApp → String → Bytes → QueryAnswer
  query app path request =
      if path == "/checkpoint/latest"
      then (if app.current_epoch == 0
          then no_checkpoints
          else found (encoded (lookup app.current_epoch app.checkpoints)))
      else if path == "/checkpoint/epoch"
      then (elim (codec.decode_epoch request) [
        | none ↦ bad_request
        | some epoch ↦ elim (lookup epoch app.checkpoints) [
          | none ↦ checkpoint_not_found
          | some h ↦ found (some (codec.encode_header h))
        ]
      ])
      else unknown_query_path

unfoldable has_threshold_signatures : SubnetAbciApp → ℕ → Bool
has_threshold_signatures app epoch = elim (lookup epoch app.validation_bundle_signatures) [
  | none ↦ false
  | some signatures ↦
      if is_empty app.validator_set
      then false
      else leb (length app.validator_set * 2 / 3 + 1) (length signatures)
]
