-- ===== src/Examples/Nodes.antt =====
-- A validator node of the three, and two nodes that replicate the same payloads.
use subnet.Prelude.{
  ℕ, zero, suc, ◌≡◌, refl, ◌≢◌, ◌↔◌, ◌⊎◌, true, none, some, List, [], ◌∷◌, map, arith, nat_eq,
  text_Eq,
}
use subnet.Map.{lookup, insert}
use subnet.Bytes.{Bytes}
use subnet.Validators.{get_validator, index_by_id, required_signatures}
use subnet.Bitmap.{or_byte}
use subnet.Consensus.{is_idle}
use subnet.Consensus.Leader.{new_tracker, leader, select_leader, move_to_epoch}
use subnet.Consensus.StateMachine.{has_threshold, new_state_machine}
use subnet.Consensus.StateMachine
use subnet.Node.{
  Signature, Node, Crypto, Answer, replied, crashed, new_node, handle_proposal, take_proposal,
  validate_proposal, sign_checkpoint, add_signature, verify_signature, store_verified,
  begin_finalized, end_finalized, gives_up_lock, Request,
}
use subnet.Node.Rounds.{CanSign}
use subnet.Node.Reached.{
  Reach, here, next, proposes, signs, reports, submits_first, submitted, Quorum, node-Quorum,
}
use subnet.Reports.{ExecutionReport, Status, nonneg}
use subnet.Raft.{RaftLogEntry, EntryType, new_raft_fsm, unmarshal_raft_log_entry}
use subnet.Raft
use subnet.Raft.Log.{apply_all}
use subnet.Consensus.Cometbft.{Codec, ConsensusHandlers, new_app, check_tx, deliver}
use subnet.Consensus.Cometbft.Checked.{IsWhole, check_tx_iff}
use subnet.Consensus.Cometbft.Replicated.{
  Payload, header, report, entry_of, payloads_of, run_blocks, SameMessages, SameState,
  run_blocks-SameState,
}
use subnet.Examples.{three, sha, header_of}

-- A key that signs with one byte, and a verifier that takes every signature.
abbrev keys : Crypto
keys = record {
  sha256 = sha;
  sign = λ hash. some (1 ∷ []);
  public_key = 2 ∷ [];
  verify = λ key hash der. true;
}

abbrev node : Node
node = new_node "a" three none 5

can_sign : CanSign keys "a" three
unfolding get_validator
can_sign = (_, refl, λ h. (_, refl, refl))

abbrev signed : Signature
signed = record { algo = ""; der = 1 ∷ []; pubkey = []; msg_hash = []; signer_id = "b" }

abbrev left_by : Answer → Node
left_by (replied n requests e) = n
left_by crashed = node

-- The node after a proposal, and after a second signature.
abbrev proposed : Node
proposed = left_by (handle_proposal keys 1 node (header_of 0))

abbrev seconded : Node
seconded = left_by (add_signature keys 2 proposed signed)

proposing : handle_proposal keys 1 node (header_of 0) ≡ replied proposed [] none
unfolding handle_proposal leader select_leader move_to_epoch new_tracker new_node take_proposal
    validate_proposal sign_checkpoint new_state_machine StateMachine.propose_header
    StateMachine.add_signature StateMachine.store_signature StateMachine.mark_signer
    StateMachine.note_threshold StateMachine.has_threshold index_by_id required_signatures or_byte
    insert
proposing = refl

signing : add_signature keys 2 proposed signed ≡ replied seconded [] none
unfolding handle_proposal leader select_leader move_to_epoch new_tracker new_node take_proposal
    validate_proposal sign_checkpoint new_state_machine StateMachine.propose_header
    StateMachine.add_signature StateMachine.store_signature StateMachine.mark_signer
    StateMachine.note_threshold StateMachine.has_threshold index_by_id required_signatures or_byte
    insert add_signature verify_signature store_verified get_validator lookup
signing = refl

abbrev executed : ExecutionReport
executed = record {
  report_id = "r";
  assignment_id = "t";
  intent_id = "i";
  agent_id = "x";
  status = Status.success;
  result_data = 9 ∷ [];
  evidence = none;
  error = none;
  timestamp = nonneg 1000;
  signature = 5 ∷ [];
}

-- The leader of epoch 0 has a report, and hears that its checkpoint is final: it submits, and goes on
-- after that.
abbrev with_report : Node
with_report = record seconded { pending_reports = ("r", executed) ∷ []; report_scores = [] }

abbrev submitting : Node
submitting = left_by (begin_finalized with_report (header_of 0))

abbrev requests_of : Answer → List Request
requests_of (replied n requests e) = requests
requests_of crashed = []

final :
    begin_finalized with_report (header_of 0)
    ≡ replied submitting (requests_of (begin_finalized with_report (header_of 0))) none
unfolding begin_finalized handle_proposal leader select_leader move_to_epoch new_tracker new_node
    take_proposal validate_proposal sign_checkpoint new_state_machine StateMachine.propose_header
    StateMachine.add_signature StateMachine.store_signature StateMachine.mark_signer
    StateMachine.note_threshold StateMachine.has_threshold index_by_id required_signatures or_byte
    insert add_signature verify_signature store_verified get_validator lookup
final = refl

waits : gives_up_lock with_report (header_of 0) ≡ true
unfolding handle_proposal leader select_leader move_to_epoch new_tracker new_node take_proposal
    validate_proposal sign_checkpoint new_state_machine StateMachine.propose_header
    StateMachine.add_signature StateMachine.store_signature StateMachine.mark_signer
    StateMachine.note_threshold StateMachine.has_threshold index_by_id required_signatures or_byte
    insert add_signature verify_signature store_verified get_validator lookup
waits = refl

abbrev rounds : Reach keys "a" three node seconded 0
rounds =
    next (next here (proposes 1 (header_of 0) [] none proposing)) (signs 2 signed [] none signing)

node-Quorum_example :
    (handle_proposal keys 3 (end_finalized submitting) (header_of 1) ≢ crashed)
    × (add_signature keys 3 (end_finalized submitting) signed ≢ crashed)
    × (begin_finalized (end_finalized submitting) (header_of 1) ≢ crashed)
    × ((is_idle (end_finalized submitting).fsm.state ≡ true)
        ⊎ (has_threshold (end_finalized submitting).fsm ≢ some true)
        ⊎ Quorum keys "a" three (end_finalized submitting))
node-Quorum_example =
    node-Quorum keys "a" three none 5 (end_finalized submitting) 3 (header_of 1) signed can_sign
      (omega arith)
      (next
        (next (next rounds (reports (("r", executed) ∷ []) []))
          (submits_first (header_of 0) _ none waits final))
        submitted)

abbrev messages : Codec
messages = record {
  decode_header = λ raw. elim raw [ [] ↦ none | n ∷ ns ↦ some (header_of n) ];
  decode_report = λ raw. none;
  decode_signature = λ raw. none;
  decode_epoch = λ raw. none;
  encode_header = λ h. [];
  encode_state = λ a b c. [];
  format_int = λ n. "0";
}

abbrev tag : EntryType → ℕ
tag EntryType.checkpoint = 0
tag EntryType.execution_report = 1
tag (EntryType.other_entry n) = suc (suc n)

abbrev untag : ℕ → EntryType
untag zero = EntryType.checkpoint
untag (suc zero) = EntryType.execution_report
untag (suc (suc n)) = EntryType.other_entry n

untag-tag : (t : EntryType) → untag (tag t) ≡ t
untag-tag EntryType.checkpoint = refl
untag-tag EntryType.execution_report = refl
untag-tag (EntryType.other_entry n) = refl

-- The first byte of an entry stands for its type.
abbrev entries : Raft.Codec ℕ
entries = record {
  decode_entry =
      λ raw. elim raw [ [] ↦ none | n ∷ ns ↦ some (record { entry_type = untag n; payload = ns }) ];
  decode_header = messages.decode_header;
  decode_report = messages.decode_report;
  format_int = messages.format_int;
  encode_snapshot = λ s. 0;
  decode_snapshot = λ s. none;
}

abbrev encode : RaftLogEntry → Bytes
encode e = tag e.entry_type ∷ e.payload

read_back : (e : RaftLogEntry) → unmarshal_raft_log_entry entries (encode e) ≡ some e
unfolding unmarshal_raft_log_entry
read_back e = rw (untag-tag e.entry_type) refl

same_messages : SameMessages messages entries
same_messages = record { headers = λ raw. refl; reports = λ raw. refl; numbers = λ n. refl }

abbrev all_set : ConsensusHandlers
all_set = record {
  on_checkpoint_committed = true;
  on_execution_report_committed = true;
  on_validation_signature_collected = true;
}

-- Two headers in one block, and a report that does not decode with a header in the next.
abbrev blocks : List (ℕ × List Payload)
blocks = (7, header (1 ∷ []) ∷ header (2 ∷ []) ∷ []) ∷ (8, report [] ∷ header (3 ∷ []) ∷ []) ∷ []

run_blocks-SameState_example :
    SameState
      (run_blocks messages (new_app all_set []) blocks)
      (apply_all entries (new_raft_fsm true) (map (λ p. encode (entry_of p)) (payloads_of blocks)))
run_blocks-SameState_example =
    run_blocks-SameState messages entries encode all_set [] true blocks same_messages read_back

check_tx_iff_example : (check_tx messages (1 ∷ 4 ∷ []) ≡ none) ↔ (
    ((deliver messages (new_app all_set []) (1 ∷ 4 ∷ [])).2 ≡ none) × IsWhole messages (1 ∷ 4 ∷ []))
check_tx_iff_example = check_tx_iff messages (new_app all_set []) (1 ∷ 4 ∷ [])
