-- ===== src/Consensus/StateMachine.antt =====
-- internal/consensus/state_machine.go: the round that a validator node runs for a checkpoint. `H` is
-- the type of headers and `S` the protobuf signature, of which only the signer's name is read. The
-- clock is an argument. The signer of the source is stored and never used, so it is left out.
pub mod Progress
pub mod Round
use mathlib.Core.Option
use subnet.Prelude.{
  ℕ, ◌+◌, ◌/◌, ◌%◌, String, Bool, true, false, ◌&&◌, Option, none, some, List, [], map, ltb, leb,
  nat_eq, text_Eq, if◌then◌else◌, length, replicate,
}
use subnet.Map.{Map, insert}
use subnet.Validators.{ValidatorSet, index_by_id, required_signatures}
use subnet.Bitmap.{or_byte}
use subnet.Consensus.{State, idle, collecting, finalized, Time, is_after, is_idle, is_collecting}

-- A call's answer: a value, the error of a call in the wrong state, or a panic.
pub data Reply (A : Type 0) : Type 0 where
  done : A → Reply A
  refused : State → Reply A
  panicked : Reply A

pub record StateMachine (H S : Type 0) : Type 0 where
  pub state : State
  pub validator_set : ValidatorSet
  pub collect_timeout : Option ℕ
  pub current_header : Option H
  pub signatures : Map String S
  pub signers_bitmap : List ℕ
  pub start_time : Time
  pub propose_deadline : Time
  pub collect_deadline : Time
  pub threshold_time : Time

abbrev pub timeout_or_default : Option ℕ → ℕ
timeout_or_default none = 15000000000
timeout_or_default (some timeout) = timeout

-- The bitmap with the signer's bit; `none` is the panic of an index out of range.
unfoldable pub mark_signer : Option ℕ → List ℕ → Option (List ℕ)
mark_signer none bitmap = some bitmap
mark_signer (some idx) bitmap =
    if ltb (idx / 8) (length bitmap) then some (or_byte bitmap (idx / 8) (idx % 8)) else none

module _ {H S : Type 0} where
  -- `NewStateMachine` has no timeout configuration, `NewStateMachineWithConfig` has one.
  unfoldable pub new_state_machine : ValidatorSet → Option ℕ → StateMachine H S
  new_state_machine vs timeout = record {
    state = idle;
    validator_set = vs;
    collect_timeout = timeout;
    current_header = none;
    signatures = [];
    signers_bitmap = [];
    start_time = none;
    propose_deadline = none;
    collect_deadline = none;
    threshold_time = none;
  }

  unfoldable pub propose_header : StateMachine H S → Option H → ℕ → Reply (StateMachine H S)
  propose_header sm header now =
      if is_idle sm.state
      then done (record sm {
        current_header = header;
        signatures = [];
        signers_bitmap = replicate ((length sm.validator_set.validators + 7) / 8) 0;
        state = collecting;
        start_time = some now;
        collect_deadline = some (now + timeout_or_default sm.collect_timeout);
      })
      else refused sm.state

  -- `checkThreshold`; `none` is the panic of a zero denominator.
  unfoldable pub has_threshold : StateMachine H S → Option Bool
  has_threshold sm =
      Option.map (λ required. leb required (length sm.signatures))
        (required_signatures sm.validator_set)

  unfoldable pub note_threshold : StateMachine H S → ℕ → Option Bool → Reply (StateMachine H S)
  note_threshold sm now none = panicked
  note_threshold sm now (some false) = done sm
  note_threshold sm now (some true) = done (record sm { threshold_time = some now })

  unfoldable pub store_signature :
      StateMachine H S → String → S → ℕ → Option (List ℕ) → Reply (StateMachine H S)
  unfolding note_threshold has_threshold
  store_signature sm signer sig now none = panicked
  store_signature sm signer sig now (some bitmap) =
      let sm' = record sm {
        signatures = insert signer sig sm.signatures;
        signers_bitmap = bitmap;
      } in
      note_threshold sm' now (has_threshold sm')

  unfoldable pub add_signature : (S → String) → StateMachine H S → S → ℕ → Reply (StateMachine H S)
  unfolding store_signature mark_signer
  add_signature signer_id sm sig now =
      let idx = index_by_id (signer_id sig) sm.validator_set.validators in
      if is_collecting sm.state
      then store_signature sm (signer_id sig) sig now (mark_signer idx sm.signers_bitmap)
      else refused sm.state

  unfoldable finalize : StateMachine H S → Reply (StateMachine H S)
  finalize sm =
      if is_collecting sm.state then done (record sm { state = finalized }) else refused sm.state

  unfoldable pub reset : StateMachine H S → StateMachine H S
  reset sm = record sm {
    state = idle;
    current_header = none;
    signatures = [];
    signers_bitmap = [];
    start_time = none;
  }

  unfoldable is_timed_out : StateMachine H S → ℕ → Bool
  is_timed_out sm now = is_collecting sm.state && is_after now sm.collect_deadline
