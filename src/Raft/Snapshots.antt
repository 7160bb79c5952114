-- ===== src/Raft/Snapshots.antt =====
-- A node that restores a snapshot goes on like the node that took it.
use subnet.Prelude.{ℕ, String, ◌≡◌, refl, Bool, true, some, List, [], ◌∷◌, ◌++◌, nat_eq, text_Eq}
use subnet.Map.{lookup}
use subnet.Bytes.{Bytes}
use subnet.Raft.{
  Snapshot, Codec, RaftFsm, apply, new_raft_fsm, latest_checkpoint, snapshot, persist, restore,
}
use subnet.Raft.Log.{apply_all, Step-all}

-- Two snapshots hold the same epoch and the same maps, in whatever order.
pub record IsSame (s t : Snapshot) : Type 0 where
  pub epoch : s.current_epoch ≡ t.current_epoch
  pub headers : (e : ℕ) → lookup e s.checkpoints ≡ lookup e t.checkpoints
  pub reports : (k : String) → lookup k s.reports ≡ lookup k t.reports

-- Two nodes answer alike.
pub record Agrees (f g : RaftFsm) : Type 0 where
  pub latest : latest_checkpoint f ≡ latest_checkpoint g
  pub by_epoch : (e : ℕ) → lookup e f.checkpoints ≡ lookup e g.checkpoints
  pub by_key : (k : String) → lookup k f.pending_reports ≡ lookup k g.pending_reports

-- What the JSON codec promises of a snapshot: what was encoded is read back.
abbrev pub IsFaithful : {Sink : Type 0} → Codec Sink → Type 0
IsFaithful codec =
    (s : Snapshot)
    → (t : Snapshot) × (codec.decode_snapshot (codec.encode_snapshot s) ≡ some t) × IsSame t s

module _ {Sink : Type 0} (codec : Codec Sink) where
  restored-Agrees :
      (f g : RaftFsm) (t : Snapshot)
      → codec.decode_snapshot (codec.encode_snapshot (snapshot f)) ≡ some t
      → IsSame t (snapshot f)
      → Agrees (restore codec g (persist codec (snapshot f))).0 f
        × ((restore codec g (persist codec (snapshot f))).1 ≡ true)
  unfolding restore persist snapshot
  restored-Agrees f g t e same =
      rw (e, restore, persist)
        (
          record {
            latest = unfold latest_checkpoint in rw (same.epoch, same.headers f.current_epoch) refl;
            by_epoch = same.headers;
            by_key = same.reports;
          },
          refl,
        )

  apply_all-append :
      (f : RaftFsm) (log more : List Bytes)
      → apply_all codec f (log ++ more) ≡ apply_all codec (apply_all codec f log) more
  apply_all-append f [] more = refl
  apply_all-append f (raw ∷ log) more = apply_all-append (apply codec f raw).0 log more

  log-Agrees :
      (f g : RaftFsm) (log : List Bytes)
      → Agrees f g
      → Agrees (apply_all codec f log) (apply_all codec g log)
  log-Agrees f g log a =
      let s = Step-all codec f log in
      let t = Step-all codec g log in
      record {
        latest = rw (s.latest, t.latest, a.latest) refl;
        by_epoch = λ e. rw (s.by_epoch e, t.by_epoch e, a.by_epoch e) refl;
        by_key = λ k. rw (s.by_key k, t.by_key k, a.by_key k) refl;
      }

-- With a codec that reads back what it wrote, a node in any state that restores the snapshot of a
-- node that applied `log`, and then applies `more`, reads the snapshot without an error and answers
-- like a node that applied both logs without a snapshot.
pub restore_resumes :
    {Sink : Type 0} (codec : Codec Sink)
    → IsFaithful codec
    → (handler : Bool) (log more : List Bytes) (g : RaftFsm)
    → Agrees
        (apply_all codec
          (restore codec g
            (persist codec (snapshot (apply_all codec (new_raft_fsm handler) log)))).0
          more)
        (apply_all codec (new_raft_fsm handler) (log ++ more))
      × ((restore codec g (persist codec (snapshot (apply_all codec (new_raft_fsm handler) log)))).1
          ≡ true)
restore_resumes codec faithful handler log more g =
    let f = apply_all codec (new_raft_fsm handler) log in
    let (t, e, same) = faithful (snapshot f) in
    let (a, ok) = restored-Agrees codec f g t e same in
    (
      rw (apply_all-append codec (new_raft_fsm handler) log more)
          (log-Agrees codec (restore codec g (persist codec (snapshot f))).0 f more a),
      ok,
    )
