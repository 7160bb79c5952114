-- ===== src/Consensus/Fsm/Round.antt =====
-- One round, from a proposal to its end: who has signed, and when the threshold is met.
use subnet.Prelude.{
  ℕ, ◌+◌, ◌≤◌, ◌≡◌, refl, ap, ◌∙◌, false, some, List, [], ◌∷◌, arith, leb, nat_eq, if◌then◌else◌,
}
use subnet.Bitmap.{set_bit, bit_is_set, count_bits}
use subnet.Bitmap.Count.{bitmap_of, member, distinct, bit_is_set-bitmap_of, count_bits-bitmap_of}
use subnet.Consensus.{collecting, finalized}
use subnet.Consensus.Fsm.{
  Fsm, Call, proposes, signs, ticks, finalizes, resets, required_sigs, start_proposal, on_signature,
  tick, move_to_finalized, step, run,
}

module _ {H : Type 0} where
  -- The calls are signatures, and ticks at or before the deadline.
  abbrev InTime : ℕ → List (Call H) → Type 0
  InTime d [] = Unit {0}
  InTime d (signs idx now ∷ cs) = InTime d cs
  InTime d (ticks now ∷ cs) = (now ≤ d) × InTime d cs
  InTime d (c ∷ cs) = ⊥

  -- The signers of the calls, the last one first, before those of `earlier`.
  abbrev pub signers_onto : List ℕ → List (Call H) → List ℕ
  signers_onto earlier [] = earlier
  signers_onto earlier (signs idx now ∷ cs) = signers_onto (idx ∷ earlier) cs
  signers_onto earlier (c ∷ cs) = signers_onto earlier cs

  -- The state of a round that collects for header `h`, with the signers so far.
  abbrev pub Collects : Fsm H → H → ℕ → ℕ → List ℕ → Type 0
  Collects f h d r signers =
      (f.state ≡ collecting)
      × (f.header ≡ some h)
      × (f.collect_deadline ≡ some d)
      × (required_sigs f.set ≡ some r)
      × (f.bitmap ≡ bitmap_of signers)

  start_proposal-Collects :
      (f : Fsm H) (h : H) (now r : ℕ)
      → required_sigs f.set ≡ some r
      → Collects (start_proposal f (some h) now) h (now + f.collect_timeout) r []
  unfolding start_proposal
  start_proposal-Collects f h now r q = (refl, refl, refl, q, refl)

  -- The state that a counted signature leaves.
  abbrev signed : Fsm H → ℕ → ℕ → ℕ → ℕ → Fsm H
  signed f r count i now =
      let f' = record f { bitmap = set_bit f.bitmap i } in
      if leb r count then record f' { threshold_at = some now } else f'

  sign-Collects :
      (f : Fsm H) (h : H) (d r : ℕ) (signers : List ℕ) (i now : ℕ)
      → Collects f h d r signers
      → (g : Fsm H) × (on_signature f i now
          ≡ some (g, leb r (distinct (i ∷ signers)), distinct (i ∷ signers), r))
        × Collects g h d r (i ∷ signers)
  unfolding on_signature
  sign-Collects f h d r signers i now c =
      let count = ap (λ b. count_bits (set_bit b i)) c.4 ∙ count_bits-bitmap_of (i ∷ signers) in
      (
        signed f r (distinct (i ∷ signers)) i now,
        ground (arith, count),
        (ground arith, ground arith, ground arith, ground arith, ground arith),
      )

  tick-Collects :
      (f : Fsm H) (h : H) (d r : ℕ) (signers : List ℕ) (now : ℕ)
      → Collects f h d r signers
      → now ≤ d
      → tick f now ≡ (f, false)
  unfolding tick
  tick-Collects f h d r signers now c le = ground arith

  run-Collects :
      (f : Fsm H) (h : H) (d r : ℕ) (signers : List ℕ) (cs : List (Call H))
      → Collects f h d r signers
      → InTime d cs
      → (g : Fsm H) × (run f cs ≡ some g) × Collects g h d r (signers_onto signers cs)
  unfolding run step
  run-Collects f h d r signers [] c t = (f, refl, c)
  run-Collects f h d r signers (signs i now ∷ cs) c t =
      let (g, e, c') = sign-Collects f h d r signers i now c in
      let (g', e', c'') = run-Collects g h d r (i ∷ signers) cs c' t in
      (g', rw (e, run, step) e', c'')
  run-Collects f h d r signers (ticks now ∷ cs) c t =
      rw (tick-Collects f h d r signers now c t.0) (run-Collects f h d r signers cs c t.1)
  run-Collects f h d r signers (proposes x now ∷ cs) c t = absurd t
  run-Collects f h d r signers (finalizes now ∷ cs) c t = absurd t
  run-Collects f h d r signers (resets ∷ cs) c t = absurd t

  -- A round that is proposed with a header, and then gets signatures and ticks before its deadline,
  -- is never interrupted. The next signature reports the number of different signers and whether it
  -- meets the requirement; finalising the round keeps its header and a bitmap in which exactly the
  -- signers' bits are set.
  pub fsm_round_lem :
      (f : Fsm H) (h : H) (start r : ℕ) (cs : List (Call H))
      → required_sigs f.set ≡ some r
      → InTime (start + f.collect_timeout) cs
      → (g : Fsm H) × (run (start_proposal f (some h) start) cs ≡ some g)
        × ((i now : ℕ)
            → (g' : Fsm H) × (on_signature g i now
                ≡ some (
                  g',
                  leb r (distinct (i ∷ signers_onto [] cs)),
                  distinct (i ∷ signers_onto [] cs),
                  r,
                )))
        × ((now : ℕ)
            → ((move_to_finalized g now).state ≡ finalized)
              × ((move_to_finalized g now).header ≡ some h)
              × ((i : ℕ)
                  → bit_is_set (move_to_finalized g now).bitmap i ≡ member i (signers_onto [] cs)))
  unfolding move_to_finalized
  fsm_round_lem f h start r cs q t =
      let c = start_proposal-Collects f h start r q in
      let (g, e, c') = run-Collects (start_proposal f (some h) start) h _ r [] cs c t in
      (
        g,
        e,
        λ i now. let (g', e', _) = sign-Collects g h _ r (signers_onto [] cs) i now c' in (g', e'),
        λ now. (
          ground (arith, c'),
          ground (arith, c'),
          λ i.
              ap (λ b. bit_is_set b i) (ground (arith, c'))
              ∙ bit_is_set-bitmap_of (signers_onto [] cs) i,
        ),
      )
