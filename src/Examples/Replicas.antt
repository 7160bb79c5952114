-- ===== src/Examples/Replicas.antt =====
-- A replicated log of one header.
use subnet.Prelude.{
  ℕ, String, ◌≡◌, refl, true, false, none, some, List, [], ◌∷◌, ◌++◌, nat_eq, text_Eq,
}
use subnet.Map.{lookup}
use subnet.Bytes.{Bytes}
use subnet.Raft.{
  Codec, Snapshot, checkpoint, new_raft_fsm, latest_checkpoint, snapshot, persist, restore,
}
use subnet.Raft.Log.{
  apply_all, last_of, select, committed_headers, committed_reports, at_epoch, under_key, log_lem,
}
use subnet.Raft.Snapshots.{Agrees, IsFaithful, restore_resumes}
use subnet.Examples.{header_of}

-- Every entry commits the header whose epoch is its first byte; a sink keeps the snapshot.
abbrev codec : Codec Snapshot
codec = record {
  decode_entry = λ raw. some (record { entry_type = checkpoint; payload = raw });
  decode_header = λ raw. elim raw [ [] ↦ none | n ∷ ns ↦ some (header_of n) ];
  decode_report = λ raw. none;
  format_int = λ n. "0";
  encode_snapshot = λ s. s;
  decode_snapshot = λ s. some s;
}

abbrev log : List Bytes
log = (1 ∷ []) ∷ [] ∷ (2 ∷ []) ∷ []

log_lem_example :
    (latest_checkpoint (apply_all codec (new_raft_fsm false) log)
      ≡ last_of none (committed_headers codec log))
    × ((epoch : ℕ)
        → lookup epoch (apply_all codec (new_raft_fsm false) log).checkpoints
          ≡ last_of none (select (at_epoch codec epoch) (committed_headers codec log)))
    × ((k : String)
        → lookup k (apply_all codec (new_raft_fsm false) log).pending_reports
          ≡ last_of none (select (under_key codec k) (committed_reports codec log)))
log_lem_example = log_lem codec false log

codec-IsFaithful : IsFaithful codec
codec-IsFaithful s = (s, refl, record { epoch = refl; headers = λ e. refl; reports = λ k. refl })

restore_resumes_example :
    Agrees
      (apply_all codec
        (restore codec
          (new_raft_fsm true)
          (persist codec (snapshot (apply_all codec (new_raft_fsm false) log)))).0
        log)
      (apply_all codec (new_raft_fsm false) (log ++ log))
    × ((restore codec
          (new_raft_fsm true)
          (persist codec (snapshot (apply_all codec (new_raft_fsm false) log)))).1
        ≡ true)
restore_resumes_example = restore_resumes codec codec-IsFaithful false log log (new_raft_fsm true)
