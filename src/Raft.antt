-- ===== src/Raft.antt =====
-- internal/consensus/raft/raft_fsm.go and the entries of raft_log.go: the replicated state that every
-- node computes from the committed log. The codecs are parameters: JSON for an entry and a snapshot,
-- protobuf for a payload. `proto.Clone` is the value itself. The callbacks that `Apply` starts are
-- a list; `none` of the state's errors is nil.
pub mod Log
pub mod Snapshots
use subnet.Prelude.{
  ℕ, String, Bool, true, false, Option, none, some, List, [], ◌∷◌, nat_eq, text_Eq,
}
use Prim.Native.String.{◌++◌ as append}
use subnet.Map.{Map, lookup, insert, delete}
use subnet.Bytes.{Bytes}
use subnet.Crypto.Hasher.{CheckpointHeader}
use subnet.Reports.{Int64, ExecutionReport}

pub data EntryType : Type 0 where
  checkpoint : EntryType
  execution_report : EntryType
  other_entry : ℕ → EntryType

pub record RaftLogEntry : Type 0 where
  pub entry_type : EntryType
  pub payload : Bytes

pub record Snapshot : Type 0 where
  pub current_epoch : ℕ
  pub checkpoints : Map ℕ CheckpointHeader
  pub reports : Map String ExecutionReport

-- What the code calls: the decoders, `%d`, and the snapshot's encoder and decoder, over what a
-- snapshot's sink keeps.
pub record Codec (Sink : Type 0) : Type 0 where
  pub decode_entry : Bytes → Option RaftLogEntry
  pub decode_header : Bytes → Option CheckpointHeader
  pub decode_report : Bytes → Option ExecutionReport
  pub format_int : Int64 → String
  pub encode_snapshot : Snapshot → Sink
  pub decode_snapshot : Sink → Option Snapshot

pub record RaftFsm : Type 0 where
  pub has_handler : Bool
  pub checkpoints : Map ℕ CheckpointHeader
  pub pending_reports : Map String ExecutionReport
  pub current_epoch : ℕ

pub data Callback : Type 0 where
  on_checkpoint_committed : CheckpointHeader → Callback
  on_execution_report_committed : ExecutionReport → String → Callback

pub data ApplyError : Type 0 where
  bad_entry : ApplyError
  bad_checkpoint : ApplyError
  bad_report : ApplyError
  unknown_type : ℕ → ApplyError

-- The new state, the callbacks, and the error.
abbrev Applied : Type 0
Applied = RaftFsm × List Callback × Option ApplyError

unfoldable pub new_raft_fsm : Bool → RaftFsm
new_raft_fsm handler = record {
  has_handler = handler;
  checkpoints = [];
  pending_reports = [];
  current_epoch = 0;
}

abbrev notify : Bool → Callback → List Callback
notify true call = call ∷ []
notify false call = []

unfoldable pub latest_checkpoint : RaftFsm → Option CheckpointHeader
latest_checkpoint f = lookup f.current_epoch f.checkpoints

unfoldable clear_pending : RaftFsm → List String → RaftFsm
clear_pending f [] = f
clear_pending f (k ∷ ks) =
    clear_pending (record f { pending_reports = delete k f.pending_reports }) ks

unfoldable pub snapshot : RaftFsm → Snapshot
snapshot f = record {
  current_epoch = f.current_epoch;
  checkpoints = f.checkpoints;
  reports = f.pending_reports;
}

module _ {Sink : Type 0} (codec : Codec Sink) where
  abbrev pub make_report_key : ExecutionReport → String
  make_report_key r = append r.intent_id (
      append ":" (
        append r.assignment_id
          (append ":" (append r.agent_id (append ":" (codec.format_int r.timestamp))))))

  -- An empty log entry is an error before its decoding.
  unfoldable pub unmarshal_raft_log_entry : Bytes → Option RaftLogEntry
  unmarshal_raft_log_entry [] = none
  unmarshal_raft_log_entry (b ∷ bs) = codec.decode_entry (b ∷ bs)

  unfoldable pub apply_checkpoint : RaftFsm → Bytes → Applied
  apply_checkpoint f raw = elim (codec.decode_header raw) [
    | none ↦ (f, [], some bad_checkpoint)
    | some h ↦ (
      record f { checkpoints = insert h.epoch h f.checkpoints; current_epoch = h.epoch },
      notify f.has_handler (on_checkpoint_committed h),
      none,
    )
  ]

  unfoldable pub apply_execution_report : RaftFsm → Bytes → Applied
  apply_execution_report f raw = elim (codec.decode_report raw) [
    | none ↦ (f, [], some bad_report)
    | some r ↦ (
      record f { pending_reports = insert (make_report_key r) r f.pending_reports },
      notify f.has_handler (on_execution_report_committed r (make_report_key r)),
      none,
    )
  ]

  abbrev pub apply_typed : RaftFsm → EntryType → Bytes → Applied
  apply_typed f checkpoint raw = apply_checkpoint f raw
  apply_typed f execution_report raw = apply_execution_report f raw
  apply_typed f (other_entry n) raw = (f, [], some (unknown_type n))

  unfoldable pub apply : RaftFsm → Bytes → Applied
  apply f raw = elim (unmarshal_raft_log_entry raw) [
    | none ↦ (f, [], some bad_entry)
    | some entry ↦ apply_typed f entry.entry_type entry.payload
  ]

  unfoldable pub persist : Snapshot → Sink
  persist s = codec.encode_snapshot s

  -- The new state, and whether the snapshot was read.
  unfoldable pub restore : RaftFsm → Sink → RaftFsm × Bool
  restore f raw = elim (codec.decode_snapshot raw) [
    | none ↦ (f, false)
    | some s ↦ (
      record f {
        current_epoch = s.current_epoch;
        checkpoints = s.checkpoints;
        pending_reports = s.reports;
      },
      true,
    )
  ]
