-- ===== src/Consensus/Fsm/Phases.antt =====
-- What every run of calls keeps, and how the phase moves.
use subnet.Prelude.{
  ℕ, ◌≤◌, ◌≡◌, refl, subst, inl, inr, Bool, true, Option, some, List, [], ◌∷◌, arith, nat_eq,
  Bool-cases, Option-cases, some_eq, is_some,
}
use subnet.Validators.{ValidatorSet}
use subnet.Bitmap.{set_bit, bit_is_set, count_bits}
use subnet.Bitmap.Count.{count_bits-set_bit}
use subnet.Bitmap.Laws.{IsBytes, set_bit-IsBytes}
use subnet.Consensus.{collecting, finalized}
use subnet.Consensus.Fsm.{
  Fsm, Params, Call, proposes, signs, ticks, finalizes, resets, required_sigs, new_fsm,
  start_proposal, on_signature, tick, move_to_finalized, reset, step, run,
}

count_bits_mono : (bs : List ℕ) (i : ℕ) → IsBytes bs → count_bits bs ≤ count_bits (set_bit bs i)
count_bits_mono bs i h = elim (Bool-cases (bit_is_set bs i)) [
  | inl y ↦ omega (arith, rw y at (count_bits-set_bit bs i h))
  | inr n ↦ omega (arith, rw n at (count_bits-set_bit bs i h))
]

module _ {H : Type 0} where
  -- The bitmap holds bytes, a recorded threshold time means that the bits reach the requirement, a
  -- finalised round has its time, and a round that collects has a deadline.
  pub record Inv (f : Fsm H) : Type 0 where
    pub bytes : IsBytes f.bitmap
    pub reached :
        (t r : ℕ) → f.threshold_at ≡ some t → required_sigs f.set ≡ some r → r ≤ count_bits f.bitmap
    pub finalized_when : f.state ≡ finalized → is_some f.pre_finalized_at ≡ true
    pub deadline : f.state ≡ collecting → is_some f.collect_deadline ≡ true

  new_fsm-Inv : (vs : Option ValidatorSet) (p : Params) → Inv (new_fsm vs p)
  unfolding new_fsm
  new_fsm-Inv vs p = record {
    bytes = tt;
    reached = λ t r e _. cc;
    finalized_when = λ e. cc;
    deadline = λ e. cc;
  }

  start_proposal-Inv : (f : Fsm H) (h : Option H) (now : ℕ) → Inv (start_proposal f h now)
  unfolding start_proposal
  start_proposal-Inv f h now = record {
    bytes = tt;
    reached = λ t r e _. cc;
    finalized_when = λ e. cc;
    deadline = λ _. refl;
  }

  reset-Inv : (f : Fsm H) → Inv (reset f)
  unfolding reset
  reset-Inv f = record {
    bytes = tt;
    reached = λ t r e _. cc;
    finalized_when = λ e. cc;
    deadline = λ e. cc;
  }

  tick-Inv : (f : Fsm H) (now : ℕ) → Inv f → Inv (tick f now).0
  unfolding tick
  tick-Inv f now v = record {
    bytes = ground (arith, v.bytes);
    reached = λ t r e q. ground (arith, v.reached t r);
    finalized_when = ground arith;
    deadline = ground arith;
  }

  move_to_finalized-Inv : (f : Fsm H) (now : ℕ) → Inv f → Inv (move_to_finalized f now)
  unfolding move_to_finalized
  move_to_finalized-Inv f now v = record {
    bytes = ground (arith, v.bytes);
    reached = λ t r e q. ground (arith, v.reached t r);
    finalized_when = ground arith;
    deadline = ground arith;
  }

  on_signature-Inv :
      (f g : Fsm H) (i now : ℕ) {reached : Bool} {count required : ℕ}
      → Inv f
      → on_signature f i now ≡ some (g, reached, count, required)
      → Inv g
  unfolding on_signature
  on_signature-Inv f g i now v e = record {
    bytes = ground (arith, v.bytes, set_bit-IsBytes f.bitmap i v.bytes);
    reached = λ t r p q. ground (arith, v.reached t r, count_bits_mono f.bitmap i v.bytes);
    finalized_when = ground (arith, v.finalized_when);
    deadline = ground (arith, v.deadline);
  }

  step-Inv : (f g : Fsm H) (c : Call H) → Inv f → step f c ≡ some g → Inv g
  unfolding step
  step-Inv f g (proposes h now) v e = subst Inv (some_eq e) (start_proposal-Inv f h now)
  step-Inv f g (signs i now) v e = elim (Option-cases (on_signature f i now)) [
    | inl p ↦ absurd (ground (arith, p))
    | inr ((g', b, n, m), p) ↦ subst Inv (some_eq (rw p at e)) (on_signature-Inv f g' i now v p)
  ]
  step-Inv f g (ticks now) v e = subst Inv (some_eq e) (tick-Inv f now v)
  step-Inv f g (finalizes now) v e = subst Inv (some_eq e) (move_to_finalized-Inv f now v)
  step-Inv f g resets v e = subst Inv (some_eq e) (reset-Inv f)

  run-Inv : (f g : Fsm H) (cs : List (Call H)) → Inv f → run f cs ≡ some g → Inv g
  unfolding run
  run-Inv f g [] v e = subst Inv (some_eq e) v
  run-Inv f g (c ∷ cs) v e = elim (Option-cases (step f c)) [
    | inl p ↦ absurd (ground (arith, p))
    | inr (f', p) ↦ run-Inv f' g cs (step-Inv f f' c v p) (rw (p, run) at e)
  ]

  -- The invariant holds of a new FSM and after every sequence of calls that does not panic.
  pub run-new_fsm-Inv :
      (vs : Option ValidatorSet) (p : Params) (cs : List (Call H)) (g : Fsm H)
      → run (new_fsm vs p) cs ≡ some g
      → Inv g
  run-new_fsm-Inv vs p cs g e = run-Inv (new_fsm vs p) g cs (new_fsm-Inv vs p) e
