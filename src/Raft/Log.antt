-- ===== src/Raft/Log.antt =====
-- What a committed log leaves behind.
use subnet.Prelude.{
  ℕ, String, ◌≡◌, refl, sym, Bool, Option, none, some, List, [], ◌∷◌, ◌++◌, arith, ◌==◌, nat_eq,
  text_Eq, if◌then◌else◌,
}
use subnet.Map.{lookup, lookup-insert, lookup-insert_self}
use subnet.Bytes.{Bytes}
use subnet.Crypto.Hasher.{CheckpointHeader}
use subnet.Reports.{ExecutionReport}
use subnet.Raft.{
  EntryType, checkpoint, execution_report, other_entry, RaftLogEntry, Codec, RaftFsm, new_raft_fsm,
  latest_checkpoint, make_report_key, unmarshal_raft_log_entry, apply_checkpoint,
  apply_execution_report, apply_typed, apply,
}

module _ {ℓ} {A : Type ℓ} where
  -- The last of a list, or what was there before it.
  abbrev pub last_of : Option A → List A → Option A
  last_of before [] = before
  last_of before (x ∷ xs) = last_of (some x) xs

  abbrev pub select : (A → Bool) → List A → List A
  select p [] = []
  select p (x ∷ xs) = if p x then x ∷ select p xs else select p xs

  abbrev to_list : Option A → List A
  to_list none = []
  to_list (some a) = a ∷ []

  last_of-append :
      (before : Option A) (xs ys : List A)
      → last_of before (xs ++ ys) ≡ last_of (last_of before xs) ys
  last_of-append before [] ys = refl
  last_of-append before (x ∷ xs) ys = last_of-append (some x) xs ys

  select-append : (p : A → Bool) (xs ys : List A) → select p (xs ++ ys) ≡ select p xs ++ select p ys
  select-append p [] ys = refl
  select-append p (x ∷ xs) ys = ground (arith, select-append p xs ys)

module _ {Sink : Type 0} (codec : Codec Sink) where
  -- The entries of a log, one after another.
  abbrev pub apply_all : RaftFsm → List Bytes → RaftFsm
  apply_all f [] = f
  apply_all f (raw ∷ log) = apply_all (apply codec f raw).0 log

  abbrev headers_typed : EntryType → Bytes → List CheckpointHeader
  headers_typed checkpoint raw = to_list (codec.decode_header raw)
  headers_typed _ raw = []

  abbrev reports_typed : EntryType → Bytes → List ExecutionReport
  reports_typed execution_report raw = to_list (codec.decode_report raw)
  reports_typed _ raw = []

  abbrev headers_in : Option RaftLogEntry → List CheckpointHeader
  headers_in none = []
  headers_in (some entry) = headers_typed entry.entry_type entry.payload

  abbrev reports_in : Option RaftLogEntry → List ExecutionReport
  reports_in none = []
  reports_in (some entry) = reports_typed entry.entry_type entry.payload

  -- The headers and the reports that a log commits, in order; an entry that does not decode
  -- commits nothing.
  abbrev pub committed_headers : List Bytes → List CheckpointHeader
  committed_headers [] = []
  committed_headers (raw ∷ log) =
      headers_in (unmarshal_raft_log_entry codec raw) ++ committed_headers log

  abbrev pub committed_reports : List Bytes → List ExecutionReport
  committed_reports [] = []
  committed_reports (raw ∷ log) =
      reports_in (unmarshal_raft_log_entry codec raw) ++ committed_reports log

  abbrev pub at_epoch : ℕ → CheckpointHeader → Bool
  at_epoch epoch h = h.epoch == epoch

  abbrev pub under_key : String → ExecutionReport → Bool
  under_key k r = make_report_key codec r == k

  -- What one entry does to the three things that a node reads.
  pub record Step (f g : RaftFsm) (hs : List CheckpointHeader) (rs : List ExecutionReport)
      : Type 0 where
    pub latest : latest_checkpoint g ≡ last_of (latest_checkpoint f) hs
    pub by_epoch :
        (epoch : ℕ)
        → lookup epoch g.checkpoints
          ≡ last_of (lookup epoch f.checkpoints) (select (at_epoch epoch) hs)
    pub by_key :
        (k : String)
        → lookup k g.pending_reports
          ≡ last_of (lookup k f.pending_reports) (select (under_key k) rs)

  Step-none : (f : RaftFsm) → Step f f [] []
  Step-none f = record { latest = refl; by_epoch = λ e. refl; by_key = λ k. refl }

  Step-header :
      (f : RaftFsm) (raw : Bytes) (o : Option CheckpointHeader)
      → codec.decode_header raw ≡ o
      → Step f (apply_checkpoint codec f raw).0 (to_list o) []
  unfolding apply_checkpoint
  Step-header f raw none e = rw (e, apply_checkpoint) (Step-none f)
  Step-header f raw (some h) e =
      rw (e, apply_checkpoint)
        (record {
          latest = unfold latest_checkpoint in lookup-insert_self h.epoch h f.checkpoints;
          by_epoch = λ epoch. ground (arith, lookup-insert h.epoch epoch h f.checkpoints);
          by_key = λ k. refl;
        })

  Step-report :
      (f : RaftFsm) (raw : Bytes) (o : Option ExecutionReport)
      → codec.decode_report raw ≡ o
      → Step f (apply_execution_report codec f raw).0 [] (to_list o)
  unfolding apply_execution_report
  Step-report f raw none e = rw (e, apply_execution_report) (Step-none f)
  Step-report f raw (some r) e =
      rw (e, apply_execution_report)
        (record {
          latest = unfold latest_checkpoint in refl;
          by_epoch = λ epoch. refl;
          by_key =
              λ k. ground (arith, lookup-insert (make_report_key codec r) k r f.pending_reports);
        })

  Step-typed :
      (f : RaftFsm) (t : EntryType) (raw : Bytes)
      → Step f (apply_typed codec f t raw).0 (headers_typed t raw) (reports_typed t raw)
  Step-typed f checkpoint raw = Step-header f raw (codec.decode_header raw) refl
  Step-typed f execution_report raw = Step-report f raw (codec.decode_report raw) refl
  Step-typed f (other_entry n) raw = Step-none f

  Step-entry :
      (f : RaftFsm) (raw : Bytes) (o : Option RaftLogEntry)
      → unmarshal_raft_log_entry codec raw ≡ o
      → Step f (apply codec f raw).0 (headers_in o) (reports_in o)
  unfolding apply
  Step-entry f raw none e = rw (e, apply) (Step-none f)
  Step-entry f raw (some entry) e = rw (e, apply) (Step-typed f entry.entry_type entry.payload)

  Step-then :
      (f g k : RaftFsm) (hs hs' : List CheckpointHeader) (rs rs' : List ExecutionReport)
      → Step f g hs rs
      → Step g k hs' rs'
      → Step f k (hs ++ hs') (rs ++ rs')
  Step-then f g k hs hs' rs rs' a b = record {
    latest = rw (b.latest, a.latest) (sym (last_of-append (latest_checkpoint f) hs hs'));
    by_epoch = λ epoch.
        rw (b.by_epoch epoch, a.by_epoch epoch, select-append (at_epoch epoch) hs hs')
          (sym (
            last_of-append (lookup epoch f.checkpoints) (select (at_epoch epoch) hs)
              (select (at_epoch epoch) hs')));
    by_key = λ key.
        rw (b.by_key key, a.by_key key, select-append (under_key key) rs rs')
          (sym (
            last_of-append (lookup key f.pending_reports) (select (under_key key) rs)
              (select (under_key key) rs')));
  }

  pub Step-all :
      (f : RaftFsm) (log : List Bytes)
      → Step f (apply_all f log) (committed_headers log) (committed_reports log)
  Step-all f [] = Step-none f
  Step-all f (raw ∷ log) =
      Step-then f (apply codec f raw).0 (apply_all (apply codec f raw).0 log)
        (headers_in (unmarshal_raft_log_entry codec raw)) (committed_headers log)
        (reports_in (unmarshal_raft_log_entry codec raw)) (committed_reports log)
        (Step-entry f raw (unmarshal_raft_log_entry codec raw) refl)
        (Step-all (apply codec f raw).0 log)

  -- A node that has applied a log answers with the last header that the log commits, with the last
  -- header of each epoch, and with the last report under each key. An entry that does not decode
  -- changes none of these.
  pub log_lem :
      (handler : Bool) (log : List Bytes)
      → (latest_checkpoint (apply_all (new_raft_fsm handler) log)
          ≡ last_of none (committed_headers log))
        × ((epoch : ℕ)
            → lookup epoch (apply_all (new_raft_fsm handler) log).checkpoints
              ≡ last_of none (select (at_epoch epoch) (committed_headers log)))
        × ((k : String)
            → lookup k (apply_all (new_raft_fsm handler) log).pending_reports
              ≡ last_of none (select (under_key k) (committed_reports log)))
  unfolding new_raft_fsm latest_checkpoint lookup
  log_lem handler log =
      let s = Step-all (new_raft_fsm handler) log in (s.latest, s.by_epoch, s.by_key)
