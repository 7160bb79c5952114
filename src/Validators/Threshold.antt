-- ===== src/Validators/Threshold.antt =====
-- The number of signatures that a validator set asks for.
use subnet.Prelude.{
  ℕ, suc, ◌+◌, ◌*◌, ◌/◌, ◌%◌, ◌≤◌, ◌<◌, ◌≡◌, ap, ◌⊎◌, inl, inr, Bool, true, false, ◌&&◌, none, some,
  List, [], ◌∷◌, arith, ltb, leb, nat_eq, if◌then◌else◌, Bool-cases, length,
}
use native.Mathlib.Nat.{
  mod-eq_of_lt, mod-lt, div-add-mod, div-le_of_le-mul, mul-le-mul_left, le_of_mul-le-mul_right,
}
use subnet.Validators.Members.{validate_iff}
use subnet.Validators.{ValidatorSet, u64, validate, required_signatures, check_threshold}

mul_mono : (k q d : ℕ) → k ≤ q → k * d ≤ q * d
mul_mono k q d h = grind arith

-- The rounding of `RequiredSignatures`, over the product and the denominator.
abbrev rounded : ℕ → ℕ → ℕ
rounded a d = let up = if ltb 0 (a % d) then a / d + 1 else a / d in if ltb up 1 then 1 else up

rounded-cases :
    (a d : ℕ)
    → ((rounded a d ≡ a / d + 1) × (0 < a % d))
      ⊎ ((rounded a d ≡ a / d) × (a % d ≡ 0) × (1 ≤ a / d))
      ⊎ ((rounded a d ≡ 1) × (a % d ≡ 0) × (a / d ≡ 0))
rounded-cases a d = ground arith

rounded-reaches : (a d : ℕ) → 0 < d → a ≤ rounded a d * d
rounded-reaches a d h = elim (rounded-cases a d) [
  | inl (e, r) ↦ rw e (omega (arith, div-add-mod a d, mod-lt a h))
  | inr (inl (e, r, q)) ↦ rw e (omega (arith, div-add-mod a d))
  | inr (inr (e, r, q)) ↦ rw e (omega (arith, div-add-mod a d, ap (λ (t : ℕ). d * t) q))
]

rounded-least : (a d k : ℕ) → 0 < d → 1 ≤ k → a ≤ k * d → rounded a d ≤ k
rounded-least a d k h p q = elim (rounded-cases a d) [
  | inl (e, r) ↦ rw e (grind (arith, div-add-mod a d, mul_mono k (a / d) d))
  | inr (inl (e, r, _)) ↦ rw e (div-le_of_le-mul d (omega arith))
  | inr (inr (e, _, _)) ↦ rw e p
]

-- The product of `RequiredSignatures` fits an `int`.
abbrev pub IsSmall : ValidatorSet → Type 0
IsSmall vs = length vs.validators * vs.threshold_num < 9223372036854775808

small_product :
    (vs : ValidatorSet)
    → IsSmall vs
    → u64 (length vs.validators * vs.threshold_num) ≡ length vs.validators * vs.threshold_num
small_product vs s = mod-eq_of_lt (omega (arith, s))

-- With a positive denominator there is a required number, at least one.
pub required_signatures-total :
    (vs : ValidatorSet)
    → 0 < vs.threshold_denom
    → (r : ℕ) × (required_signatures vs ≡ some r) × (1 ≤ r)
unfolding required_signatures
required_signatures-total vs h =
    let a = u64 (length vs.validators * vs.threshold_num) in
    elim (Bool-cases (leb 9223372036854775808 a)) [
      | inl y ↦ (1, ground (arith, h, y), omega arith)
      | inr n ↦ (rounded a vs.threshold_denom, ground (arith, h, n), ground arith)
    ]

-- With a positive denominator and a product of the number of validators and the numerator that
-- fits an `int`, the required number exists, is at least one, reaches the fraction `num / denom` of
-- the validators, and is the least such number.
pub required_signatures-least :
    (vs : ValidatorSet)
    → 0 < vs.threshold_denom
    → IsSmall vs
    → (r : ℕ) × (required_signatures vs ≡ some r)
      × (1 ≤ r)
      × (length vs.validators * vs.threshold_num ≤ r * vs.threshold_denom)
      × ((k : ℕ) → 1 ≤ k → length vs.validators * vs.threshold_num ≤ k * vs.threshold_denom → r ≤ k)
unfolding required_signatures
required_signatures-least vs h s =
    let a = length vs.validators * vs.threshold_num in
    let d = vs.threshold_denom in
    (
      rounded a d,
      rw (small_product vs s) (ground (arith, h, s)),
      ground arith,
      rounded-reaches a d h,
      λ k p q. rounded-least a d k h p q,
    )

-- A set that `Validate` accepts, that has a member and whose product fits an `int` can meet its own
-- threshold: the required number lies between one and the number of validators.
pub required_signatures-reachable :
    (vs : ValidatorSet)
    → validate vs ≡ none
    → 1 ≤ length vs.validators
    → IsSmall vs
    → (r : ℕ) × (required_signatures vs ≡ some r) × (1 ≤ r) × (r ≤ length vs.validators)
required_signatures-reachable vs ok one small =
    let v = (validate_iff vs).0 ok in
    let (r, e, pos, reaches, least) = required_signatures-least vs (omega arith) small in
    (
      r,
      e,
      pos,
      least (length vs.validators) one (omega (arith, mul-le-mul_left (length vs.validators) v.2)),
    )

module _ {ℓ} {A : Type ℓ} where
  abbrev pub count_by : (A → Bool) → List A → ℕ
  count_by p [] = 0
  count_by p (x ∷ xs) = if p x then suc (count_by p xs) else count_by p xs

-- Two groups of voters, a pair of flags for each validator.
abbrev pub Votes : Type 0
Votes = List (Bool × Bool)

abbrev in_first : Bool × Bool → Bool
in_first v = v.0

abbrev in_second : Bool × Bool → Bool
in_second v = v.1

abbrev pub in_both : Bool × Bool → Bool
in_both v = v.0 && v.1

inclusion_exclusion :
    (votes : Votes)
    → count_by in_first votes + count_by in_second votes ≤ length votes + count_by in_both votes
inclusion_exclusion [] = omega arith
inclusion_exclusion ((true, true) ∷ vs) = omega (arith, inclusion_exclusion vs)
inclusion_exclusion ((true, false) ∷ vs) = omega (arith, inclusion_exclusion vs)
inclusion_exclusion ((false, true) ∷ vs) = omega (arith, inclusion_exclusion vs)
inclusion_exclusion ((false, false) ∷ vs) = omega (arith, inclusion_exclusion vs)

meets :
    (vs : ValidatorSet) (n r : ℕ)
    → required_signatures vs ≡ some r
    → check_threshold vs n ≡ some true
    → r ≤ n
unfolding check_threshold
meets vs n r e h = ground arith

overlap_bound :
    (n r d num shared : ℕ)
    → 0 < d
    → 2 * d ≤ 3 * num
    → n * num ≤ r * d
    → 2 * r ≤ n + shared
    → n ≤ 3 * shared
overlap_bound n r d num shared pos frac reaches twice =
    le_of_mul-le-mul_right {k = d}
      (omega (arith, mul-le-mul_left n frac, reaches, mul-le-mul_left d twice)) pos

-- With a positive denominator, a threshold of two thirds or more, a product of the number of
-- validators and the numerator that fits an `int`, and a pair of votes for each validator, two
-- groups of validators that both meet the threshold share at least a third of the validators.
pub quorum_overlap :
    (vs : ValidatorSet) (votes : Votes)
    → 0 < vs.threshold_denom
    → 2 * vs.threshold_denom ≤ 3 * vs.threshold_num
    → IsSmall vs
    → length votes ≡ length vs.validators
    → check_threshold vs (count_by in_first votes) ≡ some true
    → check_threshold vs (count_by in_second votes) ≡ some true
    → length vs.validators ≤ 3 * count_by in_both votes
quorum_overlap vs votes pos frac small len first second =
    let (r, e, one, reaches, least) = required_signatures-least vs pos small in
    overlap_bound (length vs.validators) r vs.threshold_denom vs.threshold_num
      (count_by in_both votes) pos frac reaches
      (omega (
        arith,
        inclusion_exclusion votes,
        meets vs (count_by in_first votes) r e first,
        meets vs (count_by in_second votes) r e second,
      ))
