-- ===== src/Node/Rounds.antt =====
-- What holds of a node between calls: its signatures and those of its FSM agree, and each of them
-- is a member's on the current checkpoint.
use subnet.Prelude.{
  ℕ, String, ◌≡◌, refl, sym, ap, subst, ◌∙◌, ◌⊎◌, inl, inr, true, Option, none, some, [], arith,
  nat_eq, text_Eq, ◌==◌, Bool-cases, Option-cases, some_eq, is_empty,
}
use subnet.Map.{lookup, insert, IsMap, insert-IsMap}
use subnet.Map.Each.{Each, Each-insert}
use subnet.Bytes.{Bytes, bytes_Eq}
use subnet.Validators.{Validator, ValidatorSet, get_validator}
use subnet.Crypto.Hasher.{CheckpointHeader, compute_hash}
use subnet.Consensus.{idle, is_collecting}
use subnet.Consensus.StateMachine.{
  StateMachine, Reply, done, refused, panicked, propose_header, reset,
}
use subnet.Consensus.StateMachine
use subnet.Consensus.StateMachine.Progress.{Collects}
use subnet.Consensus.StateMachine.Round.{Stores, add_signature-Stores}
use subnet.Node.{
  Signature, Node, Crypto, Answer, replied, crashed, verified_by, verify_signature, signer,
  signed_by_other, store_verified, add_signature,
}

module _ (c : Crypto) (id : String) (vs : ValidatorSet) where
  -- A signature stands under its signer, who is a member with a key that verifies it.
  abbrev pub IsSigned : CheckpointHeader → String → Signature → Type 0
  IsSigned header k sig =
      (sig.signer_id ≡ k)
      × ((v : Validator) × (get_validator k vs.validators ≡ some v)
          × (c.verify v.pub_key (compute_hash c.sha256 header) sig.der ≡ true))

  -- The node's own key signs every header so that the others can verify it.
  abbrev pub CanSign : Type 0
  CanSign =
      (v : Validator) × (get_validator id vs.validators ≡ some v)
      × ((header : CheckpointHeader)
          → (der : Bytes) × (c.sign (compute_hash c.sha256 header) ≡ some der)
            × (c.verify v.pub_key (compute_hash c.sha256 header) der ≡ true))

  abbrev pub IsIdle : Node → Type 0
  IsIdle n = (n.fsm.state ≡ idle) × (n.signatures ≡ [])

-- `calm` says that no call has put another checkpoint beside the round: only then are the signatures
-- those on the current checkpoint.
module _ (c : Crypto) (id : String) (vs : ValidatorSet) (calm : Type 0) where
  pub record IsActive (n : Node) : Type 0 where
    pub round : Collects n.fsm
    pub header : CheckpointHeader
    pub current : calm → n.current_checkpoint ≡ some header
    pub proposal : n.fsm.current_header ≡ some header
    pub signed : calm → Each (IsSigned c id vs header) n.signatures
    pub distinct : IsMap n.signatures

  pub record Inv (n : Node) : Type 0 where
    pub name : n.id ≡ id
    pub set : n.validator_set ≡ vs
    pub fsm_set : n.fsm.validator_set ≡ vs
    pub same : n.fsm.signatures ≡ n.signatures
    pub phase : IsIdle c id vs n ⊎ IsActive n

  -- A call does not crash, and leaves such a node.
  abbrev pub Leaves : Answer → Type 0
  Leaves (replied n requests e) = Inv n
  Leaves crashed = ⊥

  verified_by-lem :
      (header : CheckpointHeader) (sig : Signature) (o : Option Validator)
      → verified_by c header sig o ≡ none
      → (v : Validator) × (o ≡ some v)
        × (c.verify v.pub_key (compute_hash c.sha256 header) sig.der ≡ true)
  verified_by-lem header sig none h = absurd (ground (arith, h))
  verified_by-lem header sig (some v) h = (
    v,
    refl,
    elim (Bool-cases (is_empty sig.der)) [
      | inl y ↦ absurd (ground (arith, y, h))
      | inr n ↦ elim (Bool-cases (c.verify v.pub_key (compute_hash c.sha256 header) sig.der)) [
        | inl y ↦ y
        | inr m ↦ absurd (ground (arith, n, m, h))
      ]
    ],
  )

  verify-IsSigned :
      (n : Node) (header : CheckpointHeader) (sig : Signature)
      → n.validator_set ≡ vs
      → verify_signature c n header sig ≡ none
      → IsSigned c id vs header sig.signer_id sig
  unfolding verify_signature
  verify-IsSigned n header sig s h =
      let (v, e, k) =
        verified_by-lem header sig (get_validator sig.signer_id n.validator_set.validators) h in
      (
        refl,
        (v, subst (λ (w : ValidatorSet). get_validator sig.signer_id w.validators ≡ some v) s e, k),
      )

  -- A stored signature keeps an active round.
  store-IsActive :
      (n : Node) (sig : Signature) (now : ℕ) (g : StateMachine CheckpointHeader Signature)
      (header : CheckpointHeader)
      → Inv n
      → IsActive n
      → n.current_checkpoint ≡ some header
      → IsSigned c id vs header sig.signer_id sig
      → Stores signer n.fsm sig now g
      → Inv (record n { fsm = g; signatures = insert sig.signer_id sig n.signatures })
  store-IsActive n sig now g header h a at k s = record {
    name = h.name;
    set = h.set;
    fsm_set = s.set ∙ h.fsm_set;
    same = s.holds ∙ ap (insert sig.signer_id sig) h.same;
    phase = inr (record {
      round = s.still;
      header = a.header;
      current = a.current;
      proposal = s.header ∙ a.proposal;
      signed = λ q.
          Each-insert (IsSigned c id vs a.header) sig.signer_id sig n.signatures
            (subst (λ x. IsSigned c id vs x sig.signer_id sig) (some_eq (sym at ∙ a.current q)) k)
            (a.signed q);
      distinct = insert-IsMap sig.signer_id sig n.signatures a.distinct;
    });
  }

  idle-refuses :
      (fsm : StateMachine CheckpointHeader Signature) (sig : Signature) (now : ℕ)
      → fsm.state ≡ idle
      → StateMachine.add_signature signer fsm sig now ≡ refused fsm.state
  unfolding StateMachine.add_signature
  idle-refuses fsm sig now e = rw (ap is_collecting e) refl

  store_new-Leaves :
      (now : ℕ) (n : Node) (header : CheckpointHeader) (sig : Signature)
      → Inv n
      → n.current_checkpoint ≡ some header
      → IsSigned c id vs header sig.signer_id sig
      → IsIdle c id vs n ⊎ IsActive n
      → Leaves (signed_by_other c n sig (StateMachine.add_signature signer n.fsm sig now))
  store_new-Leaves now n header sig h at k (inl (state, empty)) =
      subst (λ r. Leaves (signed_by_other c n sig r)) (sym (idle-refuses n.fsm sig now state)) h
  store_new-Leaves now n header sig h at k (inr a) =
      let (g, s) = add_signature-Stores signer n.fsm sig now _ refl a.round in
      subst (λ r. Leaves (signed_by_other c n sig r)) (sym s.runs)
        (store-IsActive n sig now g header h a at k s)

  store_verified-Leaves :
      (now : ℕ) (n : Node) (header : CheckpointHeader) (sig : Signature)
      → Inv n
      → n.current_checkpoint ≡ some header
      → IsSigned c id vs header sig.signer_id sig
      → Leaves (store_verified c now n header sig)
  unfolding store_verified
  store_verified-Leaves now n header sig h at k =
      elim (Option-cases (lookup sig.signer_id n.signatures)) [
        | inl f ↦ rw (store_verified, f) (store_new-Leaves now n header sig h at k h.phase)
        | inr (old, f) ↦ elim (Bool-cases (old.der == sig.der)) [
          | inl y ↦ rw (store_verified, f, y) h
          | inr d ↦ rw (store_verified, f, d) h
        ]
      ]

  pub add_signature-Leaves :
      (now : ℕ) (n : Node) (sig : Signature) → Inv n → Leaves (add_signature c now n sig)
  unfolding add_signature
  add_signature-Leaves now n sig h = elim (Option-cases n.current_checkpoint) [
    | inl f ↦ rw (add_signature, f) h
    | inr (header, f) ↦ elim (Option-cases (verify_signature c n header sig)) [
      | inr (e, g) ↦ rw (add_signature, f, g) h
      | inl g ↦
          rw (add_signature, f, g)
            (store_verified-Leaves now n header sig h f (verify-IsSigned n header sig h.set g))
    ]
  ]
