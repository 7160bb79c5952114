-- ===== src/Examples/Rounds.antt =====
-- Bitmaps and rounds.
use subnet.Prelude.{
  ℕ, ◌<◌, String, ◌≡◌, refl, Option, none, some, List, [], ◌∷◌, arith, leb, nat_eq, text_Eq, length,
}
use mathlib.Core.Option
use subnet.Validators.{required_signatures}
use subnet.Bitmap.{bit_is_set, count_bits}
use subnet.Bitmap.Count.{bitmap_of, distinct, member, count_bits-bitmap_of}
use subnet.Consensus.{idle, finalized}
use subnet.Consensus.Fsm.{
  Fsm, Params, Call, proposes, signs, ticks, finalizes, new_fsm, required_sigs, start_proposal,
  on_signature, move_to_finalized, run, step,
}
use subnet.Consensus.Fsm.Phases.{Inv, run-new_fsm-Inv}
use subnet.Consensus.Fsm.Round.{signers_onto, fsm_round_lem}
use subnet.Consensus.StateMachine.{
  StateMachine, new_state_machine, done, propose_header, has_threshold,
}
use subnet.Consensus.StateMachine.Progress.{sign_all}
use subnet.Consensus.StateMachine.Round.{collect, AllKnown, state_machine_round_lem}
use subnet.Validators.Index.{marked}
use subnet.Examples.{three}

count_bits-bitmap_of_example : count_bits (bitmap_of (9 ∷ 2 ∷ 9 ∷ [])) ≡ distinct (9 ∷ 2 ∷ 9 ∷ [])
count_bits-bitmap_of_example = count_bits-bitmap_of (9 ∷ 2 ∷ 9 ∷ [])

abbrev params : Params
params = record { propose_timeout = 5; collect_timeout = 15 }

abbrev fresh : Fsm ℕ
fresh = new_fsm (some three) params

abbrev calls : List (Call ℕ)
calls = signs 0 5 ∷ ticks 6 ∷ signs 2 7 ∷ []

two_required : required_sigs fresh.set ≡ some 2
unfolding required_sigs required_signatures new_fsm
two_required = refl

fsm_round_lem_example :
    (g : Fsm ℕ) × (run (start_proposal fresh (some 8) 1) calls ≡ some g)
    × ((i now : ℕ)
        → (g' : Fsm ℕ) × (on_signature g i now
            ≡ some (
              g',
              leb 2 (distinct (i ∷ signers_onto [] calls)),
              distinct (i ∷ signers_onto [] calls),
              2,
            )))
    × ((now : ℕ)
        → ((move_to_finalized g now).state ≡ finalized)
          × ((move_to_finalized g now).header ≡ some 8)
          × ((i : ℕ)
              → bit_is_set (move_to_finalized g now).bitmap i ≡ member i (signers_onto [] calls)))
fsm_round_lem_example =
    fsm_round_lem fresh 8 1 2 calls two_required (unfold new_fsm in (omega arith, tt))

abbrev ended : Option (Fsm ℕ)
ended = run fresh (proposes (some 8) 1 ∷ finalizes 9 ∷ [])

fsm_runs :
    run fresh (proposes (some 8) 1 ∷ finalizes 9 ∷ [])
    ≡ some (move_to_finalized (start_proposal fresh (some 8) 1) 9)
unfolding run step
fsm_runs = refl

run-new_fsm-Inv_example : Inv (move_to_finalized (start_proposal fresh (some 8) 1) 9)
run-new_fsm-Inv_example =
    run-new_fsm-Inv (some three) params (proposes (some 8) 1 ∷ finalizes 9 ∷ [])
      (move_to_finalized (start_proposal fresh (some 8) 1) 9) fsm_runs

abbrev machine : StateMachine ℕ String
machine = new_state_machine three none

abbrev self : String → String
self name = name

abbrev signed : List (String × ℕ)
signed = ("b", 3) ∷ ("a", 4) ∷ ("b", 5) ∷ []

machine_idle : machine.state ≡ idle
unfolding new_state_machine
machine_idle = refl

machine_denom : 0 < machine.validator_set.threshold_denom
unfolding new_state_machine
machine_denom = omega arith

state_machine_round_lem_example :
    (s g : StateMachine ℕ String) × (propose_header machine (some 8) 1 ≡ done s)
    × (sign_all self s signed ≡ done g)
    × (g.current_header ≡ some 8)
    × (g.signatures ≡ collect self [] signed)
    × ((i : ℕ)
        → bit_is_set g.signers_bitmap i
          ≡ marked machine.validator_set.validators i (collect self [] signed))
    × (has_threshold g
        ≡ Option.map
            (λ r. leb r (length (collect self [] signed)))
            (required_signatures machine.validator_set))
    × (AllKnown self machine.validator_set.validators signed
        → count_bits g.signers_bitmap ≡ length (collect self [] signed))
state_machine_round_lem_example =
    state_machine_round_lem self machine (some 8) 1 signed machine_idle machine_denom
