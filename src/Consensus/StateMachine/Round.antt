-- ===== src/Consensus/StateMachine/Round.antt =====
-- A whole round: a proposal and the signatures that follow it.
use subnet.Prelude.{
  ℕ, ◌+◌, ◌/◌, ◌<◌, String, ◌≡◌, refl, sym, ap, subst, ◌∙◌, true, Option, none, some, List, [], ◌∷◌,
  arith, leb, nat_eq, text_Eq, is_some, length, replicate, length-replicate,
}
use mathlib.Core.Option
use subnet.Map.{Map, insert}
use subnet.Validators.{Validator, ValidatorSet, index_by_id, required_signatures}
use subnet.Validators.Index.{marked}
use subnet.Bitmap.{bit_is_set, count_bits}
use subnet.Bitmap.Laws.{replicate-IsBytes, bit_is_set-zeros}
use subnet.Bitmap.Count.{count_bits-zeros}
use subnet.Consensus.{idle, collecting}
use subnet.Consensus.StateMachine.{
  StateMachine, done, propose_header, has_threshold, add_signature, timeout_or_default,
}
use subnet.Consensus.StateMachine.Progress.{
  Collects, Counted, noted, stored, noted-Collects, stored-Collects, stored-Counted,
  add_signature-stores, sign_all,
}

-- The map of the signatures, a later one of a signer in place of an earlier one.
abbrev pub collect {ℓ} : {S : Type ℓ} → (S → String) → Map String S → List (S × ℕ) → Map String S
collect signer_id m [] = m
collect signer_id m ((sig, now) ∷ sigs) = collect signer_id (insert (signer_id sig) sig m) sigs

-- Every signer is a member of the set.
abbrev pub AllKnown {ℓ} : {S : Type ℓ} → (S → String) → List Validator → List (S × ℕ) → Type 0
AllKnown signer_id vs [] = Unit {0}
AllKnown signer_id vs ((sig, now) ∷ sigs) =
    (is_some (index_by_id (signer_id sig) vs) ≡ true) × AllKnown signer_id vs sigs

module _ {H S : Type 0} where
  noted_fields :
      (sm : StateMachine H S) (r now : ℕ)
      → ((noted sm r now).signatures ≡ sm.signatures)
        × ((noted sm r now).validator_set ≡ sm.validator_set)
        × ((noted sm r now).current_header ≡ sm.current_header)
        × ((noted sm r now).signers_bitmap ≡ sm.signers_bitmap)
  noted_fields sm r now = ground arith

  -- What one signature leaves.
  pub record Stores (signer_id : S → String) (sm : StateMachine H S) (sig : S) (now : ℕ)
      (g : StateMachine H S) : Type 0 where
    pub runs : add_signature signer_id sm sig now ≡ done g
    pub still : Collects g
    pub holds : g.signatures ≡ insert (signer_id sig) sig sm.signatures
    pub set : g.validator_set ≡ sm.validator_set
    pub header : g.current_header ≡ sm.current_header
    pub counted :
        Counted sm
        → is_some (index_by_id (signer_id sig) sm.validator_set.validators) ≡ true
        → Counted g

  store-Counted :
      (signer_id : S → String) (sm : StateMachine H S) (sig : S) (r now : ℕ) (idx : Option ℕ)
      → index_by_id (signer_id sig) sm.validator_set.validators ≡ idx
      → Collects sm
      → Counted sm
      → is_some idx ≡ true
      → Counted (noted (stored sm (signer_id sig) sig idx) r now)
  store-Counted signer_id sm sig r now none e c n k = cc
  store-Counted signer_id sm sig r now (some i) e c n k =
      let s = stored sm (signer_id sig) sig (some i) in
      ap count_bits (noted_fields s r now).3
      ∙ stored-Counted sm (signer_id sig) sig i e c n
      ∙ sym (ap length (noted_fields s r now).0)

  pub add_signature-Stores :
      (signer_id : S → String) (sm : StateMachine H S) (sig : S) (now : ℕ) (idx : Option ℕ)
      → index_by_id (signer_id sig) sm.validator_set.validators ≡ idx
      → Collects sm
      → (g : StateMachine H S) × Stores signer_id sm sig now g
  add_signature-Stores signer_id sm sig now idx e c =
      let (r, p) = add_signature-stores signer_id sm sig now idx e c in
      let s = stored sm (signer_id sig) sig idx in
      (
        noted s r now,
        record {
          runs = p;
          still = noted-Collects s r now (stored-Collects sm (signer_id sig) sig idx e c);
          holds = (noted_fields s r now).0;
          set = (noted_fields s r now).1;
          header = (noted_fields s r now).2;
          counted = λ n k. store-Counted signer_id sm sig r now idx e c n (ap is_some (sym e) ∙ k);
        },
      )

  -- What a list of signatures leaves.
  record Signed (signer_id : S → String) (sm g : StateMachine H S) (sigs : List (S × ℕ))
      : Type 0 where
    pub runs : sign_all signer_id sm sigs ≡ done g
    pub still : Collects g
    pub holds : g.signatures ≡ collect signer_id sm.signatures sigs
    pub set : g.validator_set ≡ sm.validator_set
    pub header : g.current_header ≡ sm.current_header
    pub counted : Counted sm → AllKnown signer_id sm.validator_set.validators sigs → Counted g

  sign_all-Signed :
      (signer_id : S → String) (sm : StateMachine H S) (sigs : List (S × ℕ))
      → Collects sm
      → (g : StateMachine H S) × Signed signer_id sm g sigs
  sign_all-Signed signer_id sm [] c = (
    sm,
    record { runs = refl; still = c; holds = refl; set = refl; header = refl; counted = λ n _. n },
  )
  sign_all-Signed signer_id sm ((sig, now) ∷ sigs) c =
      let (g, s) = add_signature-Stores signer_id sm sig now _ refl c in
      let (g', t) = sign_all-Signed signer_id g sigs s.still in
      (
        g',
        record {
          runs = rw (s.runs, sign_all) t.runs;
          still = t.still;
          holds = t.holds ∙ ap (λ m. collect signer_id m sigs) s.holds;
          set = t.set ∙ s.set;
          header = t.header ∙ s.header;
          counted = λ n k. t.counted (s.counted n k.0) (
              subst (λ vs. AllKnown signer_id vs sigs)
                (ap (λ (x : ValidatorSet). x.validators) (sym s.set)) k.1);
        },
      )

  -- The state that a proposal leaves.
  abbrev pub proposed : StateMachine H S → Option H → ℕ → StateMachine H S
  proposed sm header now = record sm {
    current_header = header;
    signatures = [];
    signers_bitmap = replicate ((length sm.validator_set.validators + 7) / 8) 0;
    state = collecting;
    start_time = some now;
    collect_deadline = some (now + timeout_or_default sm.collect_timeout);
  }

  pub proposed-Collects :
      (sm : StateMachine H S) (header : Option H) (now : ℕ)
      → 0 < sm.validator_set.threshold_denom
      → Collects (proposed sm header now)
  proposed-Collects sm header now d = record {
    phase = refl;
    room = length-replicate ((length sm.validator_set.validators + 7) / 8) (let z : ℕ = 0 in z);
    bytes = replicate-IsBytes _;
    bits = λ i. bit_is_set-zeros _ i;
    denominator = d;
  }

  -- From the idle state, and with a positive denominator, a proposal starts a round; then no list of signatures, by members or by
  -- others, in any order and repeated or not, is refused or panics. The header stays, the stored
  -- signatures are the last one of each signer, a bit is set exactly for a validator that signed,
  -- the threshold is met exactly when enough different signers are stored, and if all are members,
  -- as many bits are set as signatures are stored.
  pub state_machine_round_lem :
      (signer_id : S → String) (sm : StateMachine H S) (header : Option H) (now : ℕ)
      (sigs : List (S × ℕ))
      → sm.state ≡ idle
      → 0 < sm.validator_set.threshold_denom
      → (s g : StateMachine H S) × (propose_header sm header now ≡ done s)
        × (sign_all signer_id s sigs ≡ done g)
        × (g.current_header ≡ header)
        × (g.signatures ≡ collect signer_id [] sigs)
        × ((i : ℕ)
            → bit_is_set g.signers_bitmap i
              ≡ marked sm.validator_set.validators i (collect signer_id [] sigs))
        × (has_threshold g
            ≡ Option.map
                (λ r. leb r (length (collect signer_id [] sigs)))
                (required_signatures sm.validator_set))
        × (AllKnown signer_id sm.validator_set.validators sigs
            → count_bits g.signers_bitmap ≡ length (collect signer_id [] sigs))
  unfolding propose_header has_threshold
  state_machine_round_lem signer_id sm header now sigs e d =
      let s : StateMachine H S = proposed sm header now in
      let c = proposed-Collects sm header now d in
      let (g, t) = sign_all-Signed signer_id s sigs c in
      (
        s,
        g,
        ground arith,
        t.runs,
        t.header,
        t.holds,
        λ i. t.still.bits i ∙ rw (t.set, t.holds) refl,
        rw (t.set, t.holds) refl,
        λ k. t.counted (count_bits-zeros _) k ∙ ap length t.holds,
      )
