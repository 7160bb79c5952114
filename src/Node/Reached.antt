-- ===== src/Node/Reached.antt =====
-- Every state that a node reaches.
use subnet.Prelude.{
  ℕ, suc, ◌+◌, ◌≤◌, ◌<◌, String, ◌≡◌, refl, sym, ap, subst, ◌∙◌, ◌≢◌, ◌⊎◌, inl, inr, Bool, true,
  false, Option, none, some, List, arith, leb, leb→le, nat_eq, text_Eq, Bool-cases, some_eq, length,
}
use mathlib.Core.Option
use subnet.Map.{Map, IsMap}
use subnet.Map.Each.{Each}
use subnet.Bytes.{bytes_Eq}
use subnet.Validators.{ValidatorSet, u64, required_signatures}
use subnet.Crypto.Hasher.{CheckpointHeader}
use subnet.Consensus.{is_idle}
use subnet.Consensus.StateMachine.{
  StateMachine, Reply, done, refused, panicked, propose_header, reset, has_threshold,
  new_state_machine,
}
use subnet.Consensus.StateMachine
use subnet.Node.{
  Signature, Node, Crypto, NodeError, Request, Answer, replied, crashed, new_node, handle_proposal,
  add_signature, begin_finalized, end_finalized, gives_up_lock,
}
use subnet.Node.Rounds.{IsSigned, CanSign, IsIdle, IsActive, Inv, Leaves, add_signature-Leaves}
use subnet.Reports.{ExecutionReport}
use subnet.Node.Calls.{reported, enter-Inv, proposal-Leaves, finalized-Leaves, submitting-Leaves}

module _ (c : Crypto) (id : String) (vs : ValidatorSet) where
  -- One call that does not crash, or a part of one, or any change of the pending reports, and the numbers of the calls of
  -- `HandleFinalized` that have given up the lock, before and after it.
  pub data Step : Node → ℕ → Node → ℕ → Type 0 where
    proposes :
        {n m : Node} {w : ℕ} (now : ℕ) (header : CheckpointHeader) (requests : List Request)
        (e : Option NodeError)
        → handle_proposal c now n header ≡ replied m requests e
        → Step n w m w
    signs :
        {n m : Node} {w : ℕ} (now : ℕ) (sig : Signature) (requests : List Request)
        (e : Option NodeError)
        → add_signature c now n sig ≡ replied m requests e
        → Step n w m w
    finalizes :
        {n m : Node} {w : ℕ} (header : CheckpointHeader) (requests : List Request)
        (e : Option NodeError)
        → gives_up_lock n header ≡ false
        → begin_finalized n header ≡ replied m requests e
        → Step n w m w
    submits_first :
        {n m : Node} {w : ℕ} (header : CheckpointHeader) (requests : List Request)
        (e : Option NodeError)
        → gives_up_lock n header ≡ true
        → begin_finalized n header ≡ replied m requests e
        → Step n w m (suc w)
    reports :
        {n : Node} {w : ℕ} (pending : Map String ExecutionReport) (scores : Map String ℕ)
        → Step n w (record n { pending_reports = pending; report_scores = scores }) w
    submitted : {n : Node} {w : ℕ} → Step n (suc w) (end_finalized n) w

  pub data Reach (n : Node) : Node → ℕ → Type 0 where
    here : Reach n n 0
    next : {m k : Node} {w w' : ℕ} → Reach n m w → Step m w k w' → Reach n k w'

  -- No call is submitting.
  abbrev Calm : ℕ → Type 0
  Calm w = w ≡ 0

  never-Calm : (w : ℕ) → ¬ Calm (suc w)
  never-Calm w e = omega (arith, e)

  Step-Inv :
      {n m : Node} {w w' : ℕ}
      → CanSign c id vs
      → 0 < vs.threshold_denom
      → Inv c id vs (Calm w) n
      → Step n w m w'
      → Inv c id vs (Calm w') m
  unfolding end_finalized
  Step-Inv {n} {m} {w} can d h (proposes now header requests e f) =
      subst (Leaves c id vs (Calm w)) f (proposal-Leaves c id vs (Calm w) can d now n header h)
  Step-Inv {n} {m} {w} can d h (signs now sig requests e f) =
      subst (Leaves c id vs (Calm w)) f (add_signature-Leaves c id vs (Calm w) now n sig h)
  Step-Inv {n} {m} {w} can d h (finalizes header requests e g f) =
      subst (Leaves c id vs (Calm w)) f (finalized-Leaves c id vs (Calm w) n header g h)
  Step-Inv {n} {m} {w} can d h (submits_first header requests e g f) =
      subst (Leaves c id vs (Calm (suc w))) f
        (submitting-Leaves c id vs (Calm (suc w)) n header g (never-Calm w) h)
  Step-Inv {n} {m} {w} can d h (reports pending scores) =
      reported c id vs (Calm w) n pending scores h
  Step-Inv {n} can d h (submitted {w = w}) =
      enter-Inv c id vs (Calm w) n (u64 (n.current_epoch + 1)) h.name h.set h.fsm_set

  Reach-Inv :
      {n m : Node} {w : ℕ}
      → CanSign c id vs
      → 0 < vs.threshold_denom
      → Inv c id vs (Calm 0) n
      → Reach n m w
      → Inv c id vs (Calm w) m
  Reach-Inv can d h here = h
  Reach-Inv can d h (next r step) = Step-Inv can d (Reach-Inv can d h r) step

  -- A map of valid signatures on one header by different members, as many as the set requires.
  pub record Quorum (n : Node) : Type 0 where
    pub header : CheckpointHeader
    pub current : n.current_checkpoint ≡ some header
    pub proposal : n.fsm.current_header ≡ some header
    pub signed : Each (IsSigned c id vs header) n.signatures
    pub distinct : IsMap n.signatures
    pub required : ℕ
    pub asked : required_signatures vs ≡ some required
    pub enough : required ≤ length n.signatures

  threshold_count :
      (fsm : StateMachine CheckpointHeader Signature) (o : Option ℕ)
      → required_signatures fsm.validator_set ≡ o
      → has_threshold fsm ≡ some true
      → (r : ℕ) × (o ≡ some r) × (r ≤ length fsm.signatures)
  unfolding has_threshold
  threshold_count fsm none e h = absurd (
      ground (
        arith,
        subst (λ o. Option.map (λ required. leb required (length fsm.signatures)) o ≡ some true) e
            h,
      ))
  threshold_count fsm (some r) e h = (
    r,
    refl,
    leb→le r (length fsm.signatures) (
        some_eq (
          subst (λ o. Option.map (λ required. leb required (length fsm.signatures)) o ≡ some true) e
            h)),
  )

  new_node-Inv :
      (collect_timeout : Option ℕ) (propose_timeout : ℕ)
      → Inv c id vs (Calm 0) (new_node id vs collect_timeout propose_timeout)
  unfolding new_node StateMachine.new_state_machine
  new_node-Inv collect_timeout propose_timeout = record {
    name = refl;
    set = refl;
    fsm_set = refl;
    same = refl;
    phase = inl (refl, refl);
  }

  not_crashed : (calm : Type 0) (a : Answer) → Leaves c id vs calm a → a ≢ crashed
  not_crashed calm a h e = subst (Leaves c id vs calm) e h

  Quorum-cases :
      (n : Node)
      → Inv c id vs (Calm 0) n
      → IsIdle c id vs n ⊎ IsActive c id vs (Calm 0) n
      → (o : Option Bool) → has_threshold n.fsm ≡ o
      → (is_idle n.fsm.state ≡ true) ⊎ (has_threshold n.fsm ≢ some true) ⊎ Quorum n
  Quorum-cases n h (inl i) o t = inl (ap is_idle i.0)
  Quorum-cases n h (inr a) none t = inr (inl (λ e. ground (arith, sym t ∙ e)))
  Quorum-cases n h (inr a) (some false) t = inr (inl (λ e. ground (arith, sym t ∙ e)))
  Quorum-cases n h (inr a) (some true) t =
      let (r, e, k) = threshold_count n.fsm _ refl t in
      inr (
        inr (record {
          header = a.header;
          current = a.current refl;
          proposal = a.proposal;
          signed = a.signed refl;
          distinct = a.distinct;
          required = r;
          asked = ap required_signatures (sym h.fsm_set) ∙ e;
          enough = subst (λ (m : Map String Signature). r ≤ length m) h.same k;
        }))

  begin-Leaves :
      (w : ℕ) (n : Node) (header : CheckpointHeader)
      → Inv c id vs (Calm w) n
      → begin_finalized n header ≢ crashed
  begin-Leaves w n header h = elim (Bool-cases (gives_up_lock n header)) [
    | inl y ↦
        not_crashed (Calm (suc w)) (begin_finalized n header)
          (submitting-Leaves c id vs (Calm (suc w)) n header y (never-Calm w) h)
    | inr f ↦
        not_crashed (Calm w) (begin_finalized n header)
          (finalized-Leaves c id vs (Calm w) n header f h)
  ]

-- For a node whose own key signs every header validly, in a set with a positive denominator: in
-- every state that proposals, signatures, finalised checkpoints and changes of the pending reports
-- lead to, with any of these made while a call of HandleFinalized has given up the lock to submit, no further call crashes.
pub node-crashes :
    (c : Crypto) (id : String) (vs : ValidatorSet) (collect_timeout : Option ℕ)
    (propose_timeout : ℕ) (n : Node) (w now : ℕ) (header : CheckpointHeader) (sig : Signature)
    → CanSign c id vs
    → 0 < vs.threshold_denom
    → Reach c id vs (new_node id vs collect_timeout propose_timeout) n w
    → (handle_proposal c now n header ≢ crashed)
      × (add_signature c now n sig ≢ crashed)
      × (begin_finalized n header ≢ crashed)
node-crashes c id vs collect_timeout propose_timeout n w now header sig can d r =
    let h = Reach-Inv c id vs can d (new_node-Inv c id vs collect_timeout propose_timeout) r in
    (
      not_crashed c id vs (w ≡ 0) (handle_proposal c now n header)
          (proposal-Leaves c id vs (w ≡ 0) can d now n header h),
      not_crashed c id vs (w ≡ 0) (add_signature c now n sig)
          (add_signature-Leaves c id vs (w ≡ 0) now n sig h),
      begin-Leaves c id vs w n header h,
    )

-- For a node whose own key signs every header validly, in a set with a positive denominator: in
-- every state that proposals, signatures, finalised checkpoints and changes of the pending reports
-- lead to, with any of these made while a call of HandleFinalized has given up the lock to submit, and in which no call is
-- submitting any more, no further call crashes, and either no round is open, or the round's
-- threshold is not met, or the node holds at least the required number of signatures, by different
-- members, each of them valid for the current checkpoint, which is the header of the round.
pub node-Quorum :
    (c : Crypto) (id : String) (vs : ValidatorSet) (collect_timeout : Option ℕ)
    (propose_timeout : ℕ) (n : Node) (now : ℕ) (header : CheckpointHeader) (sig : Signature)
    → CanSign c id vs
    → 0 < vs.threshold_denom
    → Reach c id vs (new_node id vs collect_timeout propose_timeout) n 0
    → (handle_proposal c now n header ≢ crashed)
      × (add_signature c now n sig ≢ crashed)
      × (begin_finalized n header ≢ crashed)
      × ((is_idle n.fsm.state ≡ true) ⊎ (has_threshold n.fsm ≢ some true) ⊎ Quorum c id vs n)
node-Quorum c id vs collect_timeout propose_timeout n now header sig can d r =
    let h = Reach-Inv c id vs can d (new_node-Inv c id vs collect_timeout propose_timeout) r in
    let (a, b, e) =
      node-crashes c id vs collect_timeout propose_timeout n 0 now header sig can d r in
    (a, b, e, Quorum-cases c id vs n h h.phase (has_threshold n.fsm) refl)
