-- ===== src/Consensus/StateMachine/Progress.antt =====
-- A round of the state machine: no signature makes it panic, and the bitmap agrees with the
-- signatures that it stores.
use subnet.Prelude.{
  ℕ, ◌+◌, ◌/◌, ◌<◌, String, ◌≡◌, refl, sym, ap, ◌∙◌, inl, inr, false, ◌||◌, Option, none, some,
  List, [], ◌∷◌, arith, leb, lt→ltb, nat_eq, text_Eq, ◌==◌, if◌then◌else◌, Bool-cases, length,
  length-set,
}
use subnet.Map.{insert, length-insert}
use subnet.Validators.{index_by_id, required_signatures}
use subnet.Validators.Threshold.{required_signatures-total}
use subnet.Validators.Index.{is_index, marked, marked-insert, marked-has, index_by_id-id_at}
use subnet.Bitmap.{or_byte, set_bit, bit_is_set, count_bits}
use subnet.Bitmap.Laws.{IsBytes, set_bit-IsBytes, bit_is_set-set_bit}
use subnet.Bitmap.Count.{count_bits-set_bit}
use subnet.Consensus.{collecting, is_collecting}
use subnet.Consensus.StateMachine.{
  StateMachine, Reply, done, refused, panicked, has_threshold, mark_signer, note_threshold,
  store_signature, add_signature,
}

mark_signer-set_bit :
    (bitmap : List ℕ) (i : ℕ)
    → i / 8 < length bitmap
    → (mark_signer (some i) bitmap ≡ some (set_bit bitmap i))
      × (length (set_bit bitmap i) ≡ length bitmap)
unfolding mark_signer set_bit or_byte
mark_signer-set_bit bitmap i h =
    let inside : leb (length bitmap) (i / 8) ≡ false = ground arith in
    (rw (inside, lt→ltb _ _ h) refl, rw inside (length-set bitmap (i / 8) _))

module _ {H S : Type 0} where
  -- A round that collects: the bitmap has a byte for every eight validators, its bits are those of
  -- the stored signers, and the threshold can be computed.
  pub record Collects (sm : StateMachine H S) : Type 0 where
    pub phase : sm.state ≡ collecting
    pub room : length sm.signers_bitmap ≡ (length sm.validator_set.validators + 7) / 8
    pub bytes : IsBytes sm.signers_bitmap
    pub bits :
        (i : ℕ)
        → bit_is_set sm.signers_bitmap i ≡ marked sm.validator_set.validators i sm.signatures
    pub denominator : 0 < sm.validator_set.threshold_denom

  -- How many signatures are stored if they are by members: as many as the bitmap has bits.
  abbrev pub Counted : StateMachine H S → Type 0
  Counted sm = count_bits sm.signers_bitmap ≡ length sm.signatures

  -- The state that a signature leaves, but for the threshold time.
  abbrev marks : StateMachine H S → Option ℕ → List ℕ
  marks sm none = sm.signers_bitmap
  marks sm (some i) = set_bit sm.signers_bitmap i

  mark_signer-marks :
      (sm : StateMachine H S) (id : String)
      → Collects sm
      → (idx : Option ℕ) → index_by_id id sm.validator_set.validators ≡ idx
      → mark_signer idx sm.signers_bitmap ≡ some (marks sm idx)
  unfolding mark_signer
  mark_signer-marks sm id c none e = refl
  mark_signer-marks sm id c (some i) e =
      (mark_signer-set_bit sm.signers_bitmap i
        (omega (arith, c.room, (index_by_id-id_at id _ i e).0))).0

  abbrev pub stored : StateMachine H S → String → S → Option ℕ → StateMachine H S
  stored sm id sig idx = record sm {
    signatures = insert id sig sm.signatures;
    signers_bitmap = marks sm idx;
  }

  abbrev pub noted : StateMachine H S → ℕ → ℕ → StateMachine H S
  noted sm r now =
      if leb r (length sm.signatures) then record sm { threshold_time = some now } else sm

  pub noted-Collects : (sm : StateMachine H S) (r now : ℕ) → Collects sm → Collects (noted sm r now)
  noted-Collects sm r now c = elim (Bool-cases (leb r (length sm.signatures))) [
    | inl y ↦ rw y (record {
      phase = c.phase;
      room = c.room;
      bytes = c.bytes;
      bits = c.bits;
      denominator = c.denominator;
    })
    | inr n ↦ rw n c
  ]

  pub stored-Collects :
      (sm : StateMachine H S) (id : String) (sig : S) (idx : Option ℕ)
      → index_by_id id sm.validator_set.validators ≡ idx
      → Collects sm
      → Collects (stored sm id sig idx)
  stored-Collects sm id sig none e c = record {
    phase = c.phase;
    room = c.room;
    bytes = c.bytes;
    bits = λ i.
        c.bits i
        ∙ sym (
            marked-insert sm.validator_set.validators i id sig sm.signatures
            ∙ ap (λ o. is_index o i || marked sm.validator_set.validators i sm.signatures) e);
    denominator = c.denominator;
  }
  stored-Collects sm id sig (some k) e c = record {
    phase = c.phase;
    room =
        (mark_signer-set_bit sm.signers_bitmap k
          (omega (arith, c.room, (index_by_id-id_at id _ k e).0))).1
        ∙ c.room;
    bytes = set_bit-IsBytes sm.signers_bitmap k c.bytes;
    bits = λ i.
        bit_is_set-set_bit sm.signers_bitmap k i c.bytes
        ∙ ap (λ b. k == i || b) (c.bits i)
        ∙ sym (
            marked-insert sm.validator_set.validators i id sig sm.signatures
            ∙ ap (λ o. is_index o i || marked sm.validator_set.validators i sm.signatures) e);
    denominator = c.denominator;
  }

  pub stored-Counted :
      (sm : StateMachine H S) (id : String) (sig : S) (k : ℕ)
      → index_by_id id sm.validator_set.validators ≡ some k
      → Collects sm
      → Counted sm
      → Counted (stored sm id sig (some k))
  stored-Counted sm id sig k e c n =
      count_bits-set_bit sm.signers_bitmap k c.bytes
      ∙ rw (c.bits k, marked-has sm.validator_set.validators id k sm.signatures e, n)
          (sym (length-insert id sig sm.signatures))

  note_threshold-noted :
      (sm : StateMachine H S) (r now : ℕ)
      → required_signatures sm.validator_set ≡ some r
      → note_threshold sm now (has_threshold sm) ≡ done (noted sm r now)
  unfolding note_threshold has_threshold
  note_threshold-noted sm r now e = elim (Bool-cases (leb r (length sm.signatures))) [
    | inl y ↦ rw (e, y) refl
    | inr n ↦ rw (e, n) refl
  ]

  store_signature-noted :
      (sm : StateMachine H S) (id : String) (sig : S) (idx : Option ℕ) (r now : ℕ)
      → required_signatures sm.validator_set ≡ some r
      → store_signature sm id sig now (some (marks sm idx))
        ≡ done (noted (stored sm id sig idx) r now)
  unfolding store_signature
  store_signature-noted sm id sig idx r now e = note_threshold-noted (stored sm id sig idx) r now e

  -- A signature in a collecting round is stored: no error and no panic.
  pub add_signature-stores :
      (signer_id : S → String) (sm : StateMachine H S) (sig : S) (now : ℕ) (idx : Option ℕ)
      → index_by_id (signer_id sig) sm.validator_set.validators ≡ idx
      → Collects sm
      → (r : ℕ) × (add_signature signer_id sm sig now
          ≡ done (noted (stored sm (signer_id sig) sig idx) r now))
  unfolding add_signature
  add_signature-stores signer_id sm sig now idx at c =
      let (r, e, _) = required_signatures-total sm.validator_set c.denominator in
      (
        r,
        rw (ap is_collecting c.phase, at, mark_signer-marks sm (signer_id sig) c idx at)
            (store_signature-noted sm (signer_id sig) sig idx r now e),
      )

  -- Signatures one after another, each with the time of its call.
  abbrev pub sign_all : (S → String) → StateMachine H S → List (S × ℕ) → Reply (StateMachine H S)
  sign_all signer_id sm [] = done sm
  sign_all signer_id sm ((sig, now) ∷ sigs) = elim (add_signature signer_id sm sig now) [
    | done sm' ↦ sign_all signer_id sm' sigs
    | refused s ↦ refused s
    | panicked ↦ panicked
  ]
