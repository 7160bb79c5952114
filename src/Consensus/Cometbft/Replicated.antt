-- ===== src/Consensus/Cometbft/Replicated.antt =====
-- A CometBFT node and a Raft node that commit the same payloads.
use subnet.Prelude.{
  ℕ, String, ◌≡◌, refl, sym, ap, ap₂, subst, Bool, Option, none, some, List, [], ◌∷◌, ◌++◌, map,
  nat_eq, text_Eq,
}
use subnet.Map.{Map, insert}
use subnet.Bytes.{Bytes}
use subnet.Crypto.Hasher.{CheckpointHeader}
use subnet.Reports.{Int64, ExecutionReport}
use subnet.Raft.{
  EntryType, RaftLogEntry, RaftFsm, new_raft_fsm, make_report_key, unmarshal_raft_log_entry,
  apply_checkpoint, apply_execution_report, apply_typed, apply,
}
use subnet.Raft
use subnet.Raft.Log.{apply_all}
use subnet.Consensus.Cometbft.{
  Codec, ConsensusHandlers, SubnetAbciApp, new_app, report_key, deliver_checkpoint,
  deliver_execution_report, deliver, deliver_all, finalize_block, commit,
}

-- A payload that a cluster commits.
pub data Payload : Type 0 where
  header : Bytes → Payload
  report : Bytes → Payload

-- The transaction of a payload, and its entry in a log.
abbrev pub tx_of : Payload → Bytes
tx_of (header raw) = 1 ∷ raw
tx_of (report raw) = 2 ∷ raw

abbrev pub entry_of : Payload → RaftLogEntry
entry_of (header raw) = record { entry_type = EntryType.checkpoint; payload = raw }
entry_of (report raw) = record { entry_type = EntryType.execution_report; payload = raw }

-- The blocks of a chain, by height, each of them committed.
abbrev pub run_blocks : Codec → SubnetAbciApp → List (ℕ × List Payload) → SubnetAbciApp
run_blocks codec app [] = app
run_blocks codec app ((height, payloads) ∷ blocks) =
    run_blocks codec (commit codec (finalize_block codec app height (map tx_of payloads)).0) blocks

abbrev pub payloads_of : List (ℕ × List Payload) → List Payload
payloads_of [] = []
payloads_of ((height, payloads) ∷ blocks) = payloads ++ payloads_of blocks

-- The two nodes read the same protobuf messages, and print the same numbers.
pub record SameMessages {Sink : Type 0} (a : Codec) (r : Raft.Codec Sink) : Type 0 where
  pub headers : (raw : Bytes) → a.decode_header raw ≡ r.decode_header raw
  pub reports : (raw : Bytes) → a.decode_report raw ≡ r.decode_report raw
  pub numbers : (n : Int64) → a.format_int n ≡ r.format_int n

pub record SameState (app : SubnetAbciApp) (f : RaftFsm) : Type 0 where
  pub epoch : app.current_epoch ≡ f.current_epoch
  pub checkpoints : app.checkpoints ≡ f.checkpoints
  pub reports : app.pending_reports ≡ f.pending_reports

module _ {Sink : Type 0} (a : Codec) (r : Raft.Codec Sink) (same : SameMessages a r)
    (encode : RaftLogEntry → Bytes)
    (read_back : (e : RaftLogEntry) → unmarshal_raft_log_entry r (encode e) ≡ some e) where
  header-SameState :
      (app : SubnetAbciApp) (f : RaftFsm) (raw : Bytes) (o : Option CheckpointHeader)
      → r.decode_header raw ≡ o
      → SameState app f
      → SameState (deliver_checkpoint a app raw).0 (apply_checkpoint r f raw).0
  unfolding deliver_checkpoint apply_checkpoint
  header-SameState app f raw none e h =
      rw (deliver_checkpoint, apply_checkpoint, same.headers raw, e) h
  header-SameState app f raw (some x) e h =
      rw (deliver_checkpoint, apply_checkpoint, same.headers raw, e)
        (record {
          epoch = refl;
          checkpoints = ap (insert x.epoch x) h.checkpoints;
          reports = h.reports;
        })

  same_key : (x : ExecutionReport) → report_key a x ≡ make_report_key r x
  same_key x = rw (same.numbers x.timestamp) refl

  report-SameState :
      (app : SubnetAbciApp) (f : RaftFsm) (raw : Bytes) (o : Option ExecutionReport)
      → r.decode_report raw ≡ o
      → SameState app f
      → SameState (deliver_execution_report a app raw).0 (apply_execution_report r f raw).0
  unfolding deliver_execution_report apply_execution_report
  report-SameState app f raw none e h =
      rw (deliver_execution_report, apply_execution_report, same.reports raw, e) h
  report-SameState app f raw (some x) e h =
      rw (deliver_execution_report, apply_execution_report, same.reports raw, e)
        (record {
          epoch = h.epoch;
          checkpoints = h.checkpoints;
          reports = ap₂ (λ k m. insert k x m) (same_key x) h.reports;
        })

  payload-SameState :
      (app : SubnetAbciApp) (f : RaftFsm) (p : Payload)
      → SameState app f
      → SameState (deliver a app (tx_of p)).0 (apply r f (encode (entry_of p))).0
  unfolding deliver apply
  payload-SameState app f (header raw) h =
      rw (apply, read_back (entry_of (header raw)))
        (header-SameState app f raw (r.decode_header raw) refl h)
  payload-SameState app f (report raw) h =
      rw (apply, read_back (entry_of (report raw)))
        (report-SameState app f raw (r.decode_report raw) refl h)

  abbrev log_of : List Payload → List Bytes
  log_of ps = map (λ p. encode (entry_of p)) ps

  all-SameState :
      (app : SubnetAbciApp) (f : RaftFsm) (ps : List Payload)
      → SameState app f
      → SameState (deliver_all a app (map tx_of ps)).0 (apply_all r f (log_of ps))
  unfolding deliver_all
  all-SameState app f [] h = h
  all-SameState app f (p ∷ ps) h =
      all-SameState (deliver a app (tx_of p)).0 (apply r f (encode (entry_of p))).0 ps
        (payload-SameState app f p h)

  block-SameState :
      (app : SubnetAbciApp) (f : RaftFsm) (height : ℕ) (ps : List Payload)
      → SameState app f
      → SameState
          (commit a (finalize_block a app height (map tx_of ps)).0)
          (apply_all r f (log_of ps))
  unfolding commit finalize_block
  block-SameState app f height ps h =
      let opened : SameState (record app { latest_block_height = height }) f = record {
        epoch = h.epoch;
        checkpoints = h.checkpoints;
        reports = h.reports;
      } in
      let s = all-SameState (record app { latest_block_height = height }) f ps opened in
      record { epoch = s.epoch; checkpoints = s.checkpoints; reports = s.reports }

  log-append :
      (f : RaftFsm) (ps qs : List Payload)
      → apply_all r f (log_of (ps ++ qs)) ≡ apply_all r (apply_all r f (log_of ps)) (log_of qs)
  log-append f [] qs = refl
  log-append f (p ∷ ps) qs = log-append (apply r f (encode (entry_of p))).0 ps qs

  blocks-SameState :
      (app : SubnetAbciApp) (f : RaftFsm) (blocks : List (ℕ × List Payload))
      → SameState app f
      → SameState (run_blocks a app blocks) (apply_all r f (log_of (payloads_of blocks)))
  blocks-SameState app f [] h = h
  blocks-SameState app f ((height, ps) ∷ blocks) h =
      subst (SameState (run_blocks a app ((height, ps) ∷ blocks)))
        (sym (log-append f ps (payloads_of blocks)))
        (blocks-SameState (commit a (finalize_block a app height (map tx_of ps)).0)
          (apply_all r f (log_of ps)) blocks (block-SameState app f height ps h))

-- When both nodes read the same messages and a Raft log entry is read back as it was written: a
-- CometBFT node that commits headers and reports in blocks, and a Raft node that applies the same
-- payloads as one log, end with the same epoch, checkpoints and pending reports, however the
-- payloads are cut into blocks and also where some do not decode.
pub run_blocks-SameState :
    {Sink : Type 0} (a : Codec) (r : Raft.Codec Sink) (encode : RaftLogEntry → Bytes)
    (handlers : ConsensusHandlers) (validators : Map String ℕ) (has_handler : Bool)
    (blocks : List (ℕ × List Payload)) (same : SameMessages a r)
    (read_back : (e : RaftLogEntry) → unmarshal_raft_log_entry r (encode e) ≡ some e)
    → SameState (run_blocks a (new_app handlers validators) blocks) (
        apply_all r
          (new_raft_fsm has_handler)
          (map (λ p. encode (entry_of p)) (payloads_of blocks)))
unfolding new_app new_raft_fsm
run_blocks-SameState a r encode handlers validators has_handler blocks same read_back =
    blocks-SameState a r same encode read_back (new_app handlers validators)
      (new_raft_fsm has_handler) blocks
      (record { epoch = refl; checkpoints = refl; reports = refl })
