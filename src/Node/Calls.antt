-- ===== src/Node/Calls.antt =====
-- What proposals and finalised checkpoints leave of a node.
use subnet.Prelude.{
  ℕ, ◌+◌, ◌<◌, String, ◌≡◌, refl, sym, ap, subst, ◌∙◌, inl, inr, Bool, true, false, some, [], arith,
  ltb, nat_eq, text_Eq, Bool-cases, Option-cases, set,
}
use subnet.Reports.{ExecutionReport}
use subnet.Map.{Map, lookup, insert, IsMap, insert-IsMap}
use subnet.Map.Each.{Each, Each-insert}
use subnet.Bytes.{bytes_Eq}
use subnet.Validators.{ValidatorSet, get_validator, u64}
use subnet.Crypto.Hasher.{CheckpointHeader}
use subnet.Consensus.{idle, is_idle}
use subnet.Consensus.Leader.{Tracker, leader}
use subnet.Consensus.StateMachine.{
  StateMachine, Reply, done, refused, panicked, propose_header, reset, has_threshold,
  new_state_machine,
}
use subnet.Consensus.StateMachine
use subnet.Consensus.StateMachine.Progress.{Collects}
use subnet.Consensus.StateMachine.Round.{Stores, add_signature-Stores, proposed-Collects}
use subnet.Consensus.StateMachine.Round
use subnet.Node.{
  Signature, Node, Crypto, validate_proposal, sign_checkpoint, signer, own_signed, sign_proposal,
  proposed, restart, take_proposal, handle_proposal, enter_epoch, begin_finalized, gives_up_lock,
  ends_round, submits, with_checkpoint, is_me,
}
use subnet.Node.Rounds.{IsSigned, CanSign, IsIdle, Inv, Leaves}

module _ (c : Crypto) (id : String) (vs : ValidatorSet) (calm : Type 0) where
  nothing_signed : (header : CheckpointHeader) → Each (IsSigned c id vs header) []
  unfolding lookup
  nothing_signed header k sig f = absurd (ground (arith, f))

  own-Leaves :
      (now : ℕ) (n : Node) (header : CheckpointHeader) (sig : Signature)
      → n.id ≡ id
      → n.validator_set ≡ vs
      → n.fsm.validator_set ≡ vs
      → n.fsm.signatures ≡ []
      → n.signatures ≡ []
      → n.fsm.current_header ≡ some header
      → Collects n.fsm
      → sig.signer_id ≡ n.id
      → IsSigned c id vs header n.id sig
      → Leaves c id vs calm
          (own_signed c n header sig (StateMachine.add_signature signer n.fsm sig now))
  own-Leaves now n header sig name set fsm_set none_there empty proposal round own k =
      let (g, s) = add_signature-Stores signer n.fsm sig now _ refl round in
      let one = insert n.id sig n.signatures in
      let cleared : Each (IsSigned c id vs header) n.signatures =
        subst (Each (IsSigned c id vs header)) (sym empty) (nothing_signed header) in
      let fresh : IsMap n.signatures = subst IsMap (sym empty) tt in
      subst (λ r. Leaves c id vs calm (own_signed c n header sig r)) (sym s.runs)
        (record {
          name = name;
          set = set;
          fsm_set = s.set ∙ fsm_set;
          same =
              s.holds
              ∙ ap (λ k. insert k sig n.fsm.signatures) own
              ∙ ap (insert n.id sig) (none_there ∙ sym empty);
          phase = inr (record {
            round = s.still;
            header = header;
            current = λ q. refl;
            proposal = s.header ∙ proposal;
            signed = λ q. Each-insert (IsSigned c id vs header) n.id sig n.signatures k cleared;
            distinct = insert-IsMap n.id sig n.signatures fresh;
          });
        })

  restarted :
      (n : Node)
      → Inv c id vs calm n
      → ((restart c n).fsm.validator_set ≡ vs) × ((restart c n).fsm.state ≡ idle)
  unfolding reset
  restarted n h = (h.fsm_set, refl)

  moved :
      (n : Node) (tracker : Tracker)
      → Inv c id vs calm n
      → Inv c id vs calm (record n { leader_tracker = tracker })
  moved n tracker h = record {
    name = h.name;
    set = h.set;
    fsm_set = h.fsm_set;
    same = h.same;
    phase = elim h.phase [
      | inl i ↦ inl i
      | inr a ↦ inr (record {
        round = a.round;
        header = a.header;
        current = a.current;
        proposal = a.proposal;
        signed = a.signed;
        distinct = a.distinct;
      })
    ];
  }

  pub reported :
      (n : Node) (reports : Map String ExecutionReport) (scores : Map String ℕ)
      → Inv c id vs calm n
      → Inv c id vs calm (record n { pending_reports = reports; report_scores = scores })
  reported n reports scores h = record {
    name = h.name;
    set = h.set;
    fsm_set = h.fsm_set;
    same = h.same;
    phase = elim h.phase [
      | inl i ↦ inl i
      | inr a ↦ inr (record {
        round = a.round;
        header = a.header;
        current = a.current;
        proposal = a.proposal;
        signed = a.signed;
        distinct = a.distinct;
      })
    ];
  }

  module _ (can : CanSign c id vs) (denominator : 0 < vs.threshold_denom) where
    signed-Leaves :
        (now : ℕ) (n : Node) (header : CheckpointHeader)
        → n.id ≡ id
        → n.validator_set ≡ vs
        → n.fsm.validator_set ≡ vs
        → n.fsm.signatures ≡ []
        → n.signatures ≡ []
        → n.fsm.current_header ≡ some header
        → Collects n.fsm
        → Leaves c id vs calm (sign_proposal c now n header (sign_checkpoint c n header))
    unfolding sign_checkpoint
    signed-Leaves now n header name set fsm_set none_there empty proposal round =
        let (v, member, signs) = can in
        let (der, e, k) = signs header in
        rw (sign_checkpoint, e)
          (own-Leaves now n header _ name set fsm_set none_there empty proposal round refl
            (refl, (v, ap (λ k. get_validator k vs.validators) name ∙ member, k)))

    propose-done :
        (fsm : StateMachine CheckpointHeader Signature) (header : CheckpointHeader) (now : ℕ)
        → fsm.state ≡ idle
        → propose_header fsm (some header) now
          ≡ done (StateMachine.Round.proposed fsm (some header) now)
    unfolding propose_header
    propose-done fsm header now e = rw (ap is_idle e) refl

    fresh-Leaves :
        (now : ℕ) (n : Node) (header : CheckpointHeader)
        → n.id ≡ id
        → n.validator_set ≡ vs
        → n.fsm.validator_set ≡ vs
        → n.fsm.state ≡ idle
        → n.signatures ≡ []
        → Leaves c id vs calm (proposed c now n header (propose_header n.fsm (some header) now))
    fresh-Leaves now n header name set fsm_set state empty =
        let fsm = StateMachine.Round.proposed n.fsm (some header) now in
        subst (λ r. Leaves c id vs calm (proposed c now n header r))
          (sym (propose-done n.fsm header now state))
          (signed-Leaves now (record n { fsm = fsm }) header name set fsm_set refl empty refl
            (proposed-Collects n.fsm (some header) now
              (subst (λ (w : ValidatorSet). 0 < w.threshold_denom) (sym fsm_set) denominator)))

    -- A node whose FSM is idle has no signatures.
    IsIdle-phase : (n : Node) → Inv c id vs calm n → is_idle n.fsm.state ≡ true → IsIdle c id vs n
    IsIdle-phase n h e = elim h.phase [
      | inl i ↦ i
      | inr a ↦ absurd (ground (arith, sym (ap is_idle a.round.phase) ∙ e))
    ]

    take-Leaves :
        (now : ℕ) (n : Node) (header : CheckpointHeader) (leads : Bool)
        → Inv c id vs calm n
        → Leaves c id vs calm (take_proposal c now n header leads)
    unfolding take_proposal
    take-Leaves now n header true h = elim (Bool-cases (is_idle n.fsm.state)) [
      | inr d ↦ rw (take_proposal, d) h
      | inl y ↦ elim (Option-cases (validate_proposal n header)) [
        | inr (e, f) ↦ rw (take_proposal, y, f) h
        | inl f ↦
            let (state, empty) = IsIdle-phase n h y in
            rw (take_proposal, y, f) (fresh-Leaves now n header h.name h.set h.fsm_set state empty)
      ]
    ]
    take-Leaves now n header false h = elim (Option-cases (validate_proposal n header)) [
      | inr (e, f) ↦ rw (take_proposal, f) h
      | inl f ↦ elim (Bool-cases (is_idle n.fsm.state)) [
        | inl y ↦
            let (state, empty) = IsIdle-phase n h y in
            rw (take_proposal, f, y) (fresh-Leaves now n header h.name h.set h.fsm_set state empty)
        | inr d ↦
            rw (take_proposal, f, d)
              (fresh-Leaves now (restart c n) header h.name h.set (restarted n h).0
                (restarted n h).1 refl)
      ]
    ]

    pub proposal-Leaves :
        (now : ℕ) (n : Node) (header : CheckpointHeader)
        → Inv c id vs calm n
        → Leaves c id vs calm (handle_proposal c now n header)
    unfolding handle_proposal
    proposal-Leaves now n header h =
        let (tracker, index, v) = leader n.leader_tracker header.epoch in
        take-Leaves now (record n { leader_tracker = tracker }) header (is_me n.id v)
          (moved n tracker h)

  pub enter-Inv :
      (n : Node) (epoch : ℕ)
      → n.id ≡ id
      → n.validator_set ≡ vs
      → n.fsm.validator_set ≡ vs
      → Inv c id vs calm (enter_epoch n epoch)
  unfolding reset
  enter-Inv n epoch name set fsm_set = record {
    name = name;
    set = set;
    fsm_set = fsm_set;
    same = refl;
    phase = inl (refl, refl);
  }

  -- Another checkpoint beside the round.
  with-Inv :
      (n : Node) (header : CheckpointHeader) (tracker : Tracker)
      → ¬ calm
      → {before : Type 0} → Inv c id vs before n
      → Inv c id vs calm (record n { current_checkpoint = some header; leader_tracker = tracker })
  with-Inv n header tracker never h = record {
    name = h.name;
    set = h.set;
    fsm_set = h.fsm_set;
    same = h.same;
    phase = elim h.phase [
      | inl i ↦ inl i
      | inr a ↦ inr (record {
        round = a.round;
        header = a.header;
        current = λ q. absurd (never q);
        proposal = a.proposal;
        signed = λ q. absurd (never q);
        distinct = a.distinct;
      })
    ];
  }

  pub finalized-Leaves :
      (n : Node) (header : CheckpointHeader)
      → gives_up_lock n header ≡ false
      → Inv c id vs calm n
      → Leaves c id vs calm (begin_finalized n header)
  unfolding begin_finalized
  finalized-Leaves n header g h = elim (Bool-cases (ltb n.current_epoch header.epoch)) [
    | inl y ↦
        rw (begin_finalized, y)
          (enter-Inv (record n { current_checkpoint = some header }) (u64 (header.epoch + 1)) h.name
            h.set h.fsm_set)
    | inr m ↦ elim (Bool-cases (ends_round n header)) [
      | inr d ↦ rw (begin_finalized, m, d) h
      | inl r ↦ elim (Bool-cases (submits n header)) [
        | inl y ↦ absurd (ground (arith, m, r, y, g))
        | inr f ↦
            rw (begin_finalized, m, r, f)
              (enter-Inv (with_checkpoint n header) (u64 (n.current_epoch + 1)) h.name h.set
                h.fsm_set)
      ]
    ]
  ]

  pub submitting-Leaves :
      (n : Node) (header : CheckpointHeader)
      → gives_up_lock n header ≡ true
      → ¬ calm
      → {before : Type 0} → Inv c id vs before n
      → Leaves c id vs calm (begin_finalized n header)
  unfolding begin_finalized
  submitting-Leaves n header g never h = elim (Bool-cases (ltb n.current_epoch header.epoch)) [
    | inl y ↦ absurd (ground (arith, y, g))
    | inr m ↦ elim (Bool-cases (ends_round n header)) [
      | inr d ↦ absurd (ground (arith, m, d, g))
      | inl r ↦ elim (Bool-cases (submits n header)) [
        | inr f ↦ absurd (ground (arith, m, r, f, g))
        | inl y ↦
            rw (begin_finalized, m, r, y)
              (with-Inv n header (leader n.leader_tracker header.epoch).0 never h)
      ]
    ]
  ]
