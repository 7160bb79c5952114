-- ===== src/Consensus/Cometbft/Checked.antt =====
-- What the mempool's check says of a transaction's delivery.
use subnet.Prelude.{
  ℕ, ◌≡◌, refl, sym, subst, ◌≢◌, ◌↔◌, inl, inr, false, Option, none, some, [], ◌∷◌, arith, nat_eq,
  text_Eq, ◌==◌, Bool-cases, Option-cases, some_eq, is_empty, beq→eq,
}
use subnet.Bytes.{Bytes}
use subnet.Consensus.Cometbft.{
  Codec, SubnetAbciApp, ValidationBundleSignature, Log, check_signature, check_header, check_report,
  check_bundle, check_tx, deliver_checkpoint, deliver_execution_report,
  deliver_validation_bundle_signature, deliver,
}

abbrev pub IsSigned : ValidationBundleSignature → Type 0
IsSigned s = (s.epoch ≢ 0) × (is_empty s.signature ≡ false) × (s.validator_address ≢ "")

-- A signature transaction carries an epoch after the first, a signature and an address.
abbrev pub IsWhole : Codec → Bytes → Type 0
IsWhole codec [] = Unit
IsWhole codec (kind ∷ payload) =
    kind ≡ 3
    → (s : ValidationBundleSignature) → codec.decode_signature payload ≡ some s
    → IsSigned s

check_signature_iff :
    (codec : Codec) (s : ValidationBundleSignature) → (check_signature codec s ≡ none) ↔ IsSigned s
check_signature_iff codec s =
    ground (arith, nat_eq.beq_iff s.epoch 0, text_Eq.beq_iff s.validator_address "")

-- The two answers agree, and a signature is no matter.
agree :
    (codec : Codec) (kind : ℕ) (payload : Bytes) (a b : Option Log)
    → kind ≢ 3
    → (a ≡ none) ↔ (b ≡ none)
    → (a ≡ none) ↔ ((b ≡ none) × IsWhole codec (kind ∷ payload))
agree codec kind payload a b n e = (λ h. (e.0 h, λ k. absurd (n k)), λ h. e.1 h.0)

header_iff :
    (codec : Codec) (app : SubnetAbciApp) (payload : Bytes)
    → (check_header codec payload ≡ none) ↔ ((deliver_checkpoint codec app payload).2 ≡ none)
unfolding deliver_checkpoint
header_iff codec app payload = elim (Option-cases (codec.decode_header payload)) [
  | inl n ↦
      rw (deliver_checkpoint, check_header, n)
        (λ h. absurd (ground (arith, h)), λ h. absurd (ground (arith, h)))
  | inr (x, y) ↦ rw (deliver_checkpoint, check_header, y) (λ h. refl, λ h. refl)
]

report_iff :
    (codec : Codec) (app : SubnetAbciApp) (payload : Bytes)
    → (check_report codec payload ≡ none) ↔ ((deliver_execution_report codec app payload).2 ≡ none)
unfolding deliver_execution_report
report_iff codec app payload = elim (Option-cases (codec.decode_report payload)) [
  | inl n ↦
      rw (deliver_execution_report, check_report, n)
        (λ h. absurd (ground (arith, h)), λ h. absurd (ground (arith, h)))
  | inr (x, y) ↦ rw (deliver_execution_report, check_report, y) (λ h. refl, λ h. refl)
]

bundle_iff :
    (codec : Codec) (app : SubnetAbciApp) (payload : Bytes)
    → (check_bundle codec payload ≡ none) ↔ (
        ((deliver_validation_bundle_signature codec app payload).2 ≡ none)
        × IsWhole codec (3 ∷ payload))
unfolding deliver_validation_bundle_signature
bundle_iff codec app payload = elim (Option-cases (codec.decode_signature payload)) [
  | inl n ↦
      rw (deliver_validation_bundle_signature, check_bundle, n)
        (λ h. absurd (ground (arith, h)), λ h. absurd (ground (arith, h.0)))
  | inr (x, y) ↦
      let e = check_signature_iff codec x in
      rw (deliver_validation_bundle_signature, check_bundle, y)
        (λ h. (refl, λ k s d. subst IsSigned (some_eq d) (e.0 h)), λ h. e.1 (h.1 refl x refl))
]

-- CheckTx accepts a transaction exactly if its delivery in any state succeeds and, where it is a
-- signature transaction, it carries an epoch other than 0, a signature and an address. So an
-- accepted transaction never fails in a block, and a block may deliver a signature transaction
-- that CheckTx refuses.
pub check_tx_iff :
    (codec : Codec) (app : SubnetAbciApp) (tx : Bytes)
    → (check_tx codec tx ≡ none) ↔ (((deliver codec app tx).2 ≡ none) × IsWhole codec tx)
unfolding check_tx deliver
check_tx_iff codec app [] = (λ h. absurd (ground (arith, h)), λ h. absurd (ground (arith, h.0)))
check_tx_iff codec app (kind ∷ payload) = elim (Bool-cases (kind == 1)) [
  | inl y ↦
      rw (check_tx, deliver, y)
        (agree codec kind payload (check_header codec payload)
          (deliver_checkpoint codec app payload).2 (ground (arith, y))
          (header_iff codec app payload))
  | inr n ↦ elim (Bool-cases (kind == 2)) [
    | inl y ↦
        rw (check_tx, deliver, n, y)
          (agree codec kind payload (check_report codec payload)
            (deliver_execution_report codec app payload).2 (ground (arith, y))
            (report_iff codec app payload))
    | inr m ↦ elim (Bool-cases (kind == 3)) [
      | inl y ↦
          rw (check_tx, deliver, n, m, y)
            (subst
              (λ k. (check_bundle codec payload ≡ none) ↔ (
                ((deliver_validation_bundle_signature codec app payload).2 ≡ none)
                × IsWhole codec (k ∷ payload)))
              (sym (beq→eq kind 3 y)) (bundle_iff codec app payload))
      | inr l ↦
          rw (check_tx, deliver, n, m, l)
            (λ h. absurd (ground (arith, h)), λ h. absurd (ground (arith, h.0)))
    ]
  ]
]
