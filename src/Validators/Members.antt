-- ===== src/Validators/Members.antt =====
-- Membership of a validator set: lookup, update, removal, and the check for duplicate identifiers.
use subnet.Prelude.{
  ◌≤◌, ◌<◌, String, ◌≡◌, refl, ◌↔◌, inl, inr, Bool, true, false, ◌||◌, none, List, [], ◌∷◌, eq_iff,
  arith, ◌==◌, text_Eq, Bool-cases, length,
}
use subnet.Map.{Map, has, insert, has-insert}
use subnet.Validators.{Validator, ValidatorSet, find_duplicate, validate}

-- Does the identifier occur in the list?
abbrev occurs : String → List Validator → Bool
occurs id [] = false
occurs id (v ∷ vs) = v.id == id || occurs id vs

-- No identifier occurs twice.
abbrev pub Distinct : List Validator → Type 0
Distinct [] = Unit {0}
Distinct (v ∷ vs) = (occurs v.id vs ≡ false) × Distinct vs

-- No identifier of the list has been seen.
abbrev Unseen : Map String Bool → List Validator → Type 0
Unseen seen [] = Unit {0}
Unseen seen (v ∷ vs) = (has v.id seen ≡ false) × Unseen seen vs

Unseen-insert :
    (id : String) (seen : Map String Bool) (vs : List Validator)
    → Unseen seen vs
    → occurs id vs ≡ false
    → Unseen (insert id true seen) vs
Unseen-insert id seen [] h o = tt
Unseen-insert id seen (v ∷ vs) h o = ground (
  arith,
  eq_iff v.id id,
  eq_iff id v.id,
  has-insert id v.id true seen,
  Unseen-insert id seen vs h.1,
)

find_duplicate_complete :
    (seen : Map String Bool) (vs : List Validator)
    → Distinct vs
    → Unseen seen vs
    → find_duplicate seen vs ≡ none
unfolding find_duplicate
find_duplicate_complete seen [] d u = refl
find_duplicate_complete seen (v ∷ vs) d u =
    rw u.0
      (find_duplicate_complete (insert v.id true seen) vs d.1 (Unseen-insert v.id seen vs u.1 d.0))

Insert-Unseen :
    (id : String) (seen : Map String Bool) (vs : List Validator)
    → Unseen (insert id true seen) vs
    → Unseen seen vs × (occurs id vs ≡ false)
Insert-Unseen id seen [] h = (tt, refl)
Insert-Unseen id seen (v ∷ vs) h = ground (
  arith,
  eq_iff v.id id,
  eq_iff id v.id,
  has-insert id v.id true seen,
  Insert-Unseen id seen vs h.1,
)

find_duplicate_sound :
    (seen : Map String Bool) (vs : List Validator)
    → find_duplicate seen vs ≡ none
    → Distinct vs × Unseen seen vs
unfolding find_duplicate
find_duplicate_sound seen [] h = (tt, tt)
find_duplicate_sound seen (v ∷ vs) h = elim (Bool-cases (has v.id seen)) [
  | inl y ↦ absurd (ground (arith, y))
  | inr n ↦
      let ih = find_duplicate_sound (insert v.id true seen) vs (rw n at h) in
      let back = Insert-Unseen v.id seen vs ih.1 in ((back.1, ih.0), (n, back.0))
]

Unseen-nil : (vs : List Validator) → Unseen [] vs
unfolding has
Unseen-nil [] = tt
Unseen-nil (v ∷ vs) = (refl, Unseen-nil vs)

-- `Validate` accepts exactly the sets with enough validators, a threshold above 0 and at most 1,
-- and no identifier twice.
pub validate_iff :
    (vs : ValidatorSet)
    → (validate vs ≡ none) ↔ (
        (vs.min_validators ≤ length vs.validators)
        × (0 < vs.threshold_num)
        × (vs.threshold_num ≤ vs.threshold_denom)
        × Distinct vs.validators)
unfolding validate
validate_iff vs = (
  λ h. ground (arith, find_duplicate_sound [] vs.validators),
  λ h. ground (arith, find_duplicate_complete [] vs.validators h.3 (Unseen-nil vs.validators)),
)
