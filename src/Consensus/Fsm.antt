-- ===== src/Consensus/Fsm.antt =====
-- internal/consensus/fsm.go and threshold.go: a round that collects signatures for one proposed
-- header. A call answers `none` where Go panics, on a threshold whose denominator is zero. `H` is
-- the type of headers, which the FSM only stores; a nil header is `none`. The clock of
-- `MoveToFinalized` is an argument.
pub mod Phases
pub mod Round
use subnet.Prelude.{
  ℕ, ◌+◌, Bool, true, false, not, ◌||◌, Option, none, some, List, [], ◌∷◌, map, leb, nat_eq,
  if◌then◌else◌, is_some,
}
use mathlib.Core.Option
use subnet.Validators.{ValidatorSet, required_signatures}
use subnet.Bitmap.{set_bit, count_bits}
use subnet.Consensus.{State, idle, collecting, finalized, Time, is_after, is_idle}

-- `RequiredSigs`: a nil set asks for nothing.
unfoldable pub required_sigs : Option ValidatorSet → Option ℕ
required_sigs none = some 0
required_sigs (some vs) = required_signatures vs

pub record Fsm (H : Type 0) : Type 0 where
  pub state : State
  pub header : Option H
  pub bitmap : List ℕ
  pub set : Option ValidatorSet
  pub propose_deadline : Time
  pub collect_deadline : Time
  pub propose_timeout : ℕ
  pub collect_timeout : ℕ
  pub threshold_at : Time
  pub pre_finalized_at : Time

pub record Params : Type 0 where
  pub propose_timeout : ℕ
  pub collect_timeout : ℕ

module _ {H : Type 0} where
  unfoldable pub new_fsm : Option ValidatorSet → Params → Fsm H
  new_fsm vs p = record {
    state = idle;
    header = none;
    bitmap = [];
    set = vs;
    propose_deadline = none;
    collect_deadline = none;
    propose_timeout = p.propose_timeout;
    collect_timeout = p.collect_timeout;
    threshold_at = none;
    pre_finalized_at = none;
  }

  unfoldable pub start_proposal : Fsm H → Option H → ℕ → Fsm H
  start_proposal f h now = record f {
    state = collecting;
    header = h;
    bitmap = [];
    collect_deadline = some (now + f.collect_timeout);
    threshold_at = none;
    pre_finalized_at = none;
  }

  -- The state after a signature, whether the threshold is reached, the count and the requirement.
  unfoldable pub on_signature : Fsm H → ℕ → ℕ → Option (Fsm H × Bool × ℕ × ℕ)
  on_signature f signer_idx now =
      let bitmap = set_bit f.bitmap signer_idx in
      let count = count_bits bitmap in
      let signed = record f { bitmap = bitmap } in
      if is_idle f.state || not (is_some f.header)
      then Option.map (λ required. (f, false, count_bits f.bitmap, required)) (required_sigs f.set)
      else Option.map
          (λ required.
            if leb required count
            then (record signed { threshold_at = some now }, true, count, required)
            else (signed, false, count, required))
          (required_sigs f.set)

  tick_in : State → Fsm H → ℕ → Fsm H × Bool
  tick_in collecting f now =
      if is_after now f.collect_deadline then (record f { state = idle }, true) else (f, false)
  tick_in _ f now = (f, false)

  -- The state after a tick, and whether it changed.
  unfoldable pub tick : Fsm H → ℕ → Fsm H × Bool
  unfolding tick_in
  tick f now = tick_in f.state f now

  finalize_in : State → Fsm H → ℕ → Fsm H
  finalize_in collecting f now = record f { state = finalized; pre_finalized_at = some now }
  finalize_in _ f now = f

  unfoldable pub move_to_finalized : Fsm H → ℕ → Fsm H
  unfolding finalize_in
  move_to_finalized f now = finalize_in f.state f now

  unfoldable pub reset : Fsm H → Fsm H
  reset f = record f {
    state = idle;
    header = none;
    bitmap = [];
    propose_deadline = none;
    collect_deadline = none;
    threshold_at = none;
    pre_finalized_at = none;
  }

-- The calls that change the state.
pub data Call (H : Type 0) : Type 0 where
  proposes : Option H → ℕ → Call H
  signs : ℕ → ℕ → Call H
  ticks : ℕ → Call H
  finalizes : ℕ → Call H
  resets : Call H

module _ {H : Type 0} where
  unfoldable pub step : Fsm H → Call H → Option (Fsm H)
  step f (proposes h now) = some (start_proposal f h now)
  step f (signs idx now) = Option.map (λ r. r.0) (on_signature f idx now)
  step f (ticks now) = some (tick f now).0
  step f (finalizes now) = some (move_to_finalized f now)
  step f resets = some (reset f)

  -- The calls one after another; a panic ends the run.
  unfoldable pub run : Fsm H → List (Call H) → Option (Fsm H)
  run f [] = some f
  run f (c ∷ cs) = elim (step f c) [ none ↦ none | some g ↦ run g cs ]
