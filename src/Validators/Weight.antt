-- ===== src/Validators/Weight.antt =====
-- The weight that a validator set asks for.
use subnet.Prelude.{
  ℕ, ◌+◌, ◌*◌, ◌/◌, ◌%◌, ◌≤◌, ◌<◌, ◌≡◌, ◌⊎◌, inl, inr, true, some, [], arith, ltb, nat_eq,
  if◌then◌else◌,
}
use native.Mathlib.Nat.{mod-lt, div-add-mod, div-le_of_le-mul, mod-eq_of_lt, zero-mod, zero-div}
use subnet.Validators.{
  ValidatorSet, u64, total_weight, required_weight, signed_weight_from, check_weighted_threshold,
}

-- The greatest uint64 and one.
abbrev word : ℕ
word = 18446744073709551616

mul-grows : (q d : ℕ) → 0 < d → q ≤ d * q
mul-grows q d h = grind arith

abbrev ceil : ℕ → ℕ → ℕ
ceil a d = if ltb 0 (a % d) then a / d + 1 else a / d

ceil-cases : (a d : ℕ) → ((ceil a d ≡ a / d + 1) × (0 < a % d)) ⊎ ((ceil a d ≡ a / d) × (a % d ≡ 0))
ceil-cases a d = ground arith

ceil-reaches : (a d : ℕ) → 0 < d → a ≤ ceil a d * d
ceil-reaches a d h = elim (ceil-cases a d) [
  | inl (e, r) ↦ rw e (omega (arith, div-add-mod a d, mod-lt a h))
  | inr (e, r) ↦ rw e (omega (arith, div-add-mod a d))
]

mul_mono : (k q d : ℕ) → k ≤ q → k * d ≤ q * d
mul_mono k q d h = grind arith

ceil-least : (a d k : ℕ) → 0 < d → a ≤ k * d → ceil a d ≤ k
ceil-least a d k h p = elim (ceil-cases a d) [
  | inl (e, r) ↦ rw e (grind (arith, div-add-mod a d, mul_mono k (a / d) d))
  | inr (e, r) ↦ rw e (div-le_of_le-mul d (omega (arith, p)))
]

-- Rounding up does not wrap.
round-fits : (a d : ℕ) → 0 < d → a < word → 0 < a % d → u64 (a / d + 1) ≡ a / d + 1
round-fits a d pos fits r =
    mod-eq_of_lt (omega (arith, div-add-mod a d, mul-grows (a / d) d pos, fits, r))

required-ceil :
    (vs : ValidatorSet)
    → 0 < vs.threshold_denom
    → total_weight vs * vs.threshold_num < word
    → required_weight vs ≡ some (ceil (total_weight vs * vs.threshold_num) vs.threshold_denom)
unfolding required_weight
required-ceil vs pos fits =
    let a = total_weight vs * vs.threshold_num in
    let whole : u64 a ≡ a = mod-eq_of_lt fits in
    rw whole (ground (arith, round-fits a vs.threshold_denom pos fits))

-- With a positive denominator, and while the product of the total weight and the numerator fits a
-- uint64, the required weight exists and is the least number that reaches the fraction of the total
-- weight.
pub required_weight-least :
    (vs : ValidatorSet)
    → 0 < vs.threshold_denom
    → total_weight vs * vs.threshold_num < word
    → (r : ℕ) × (required_weight vs ≡ some r)
      × (total_weight vs * vs.threshold_num ≤ r * vs.threshold_denom)
      × ((k : ℕ) → total_weight vs * vs.threshold_num ≤ k * vs.threshold_denom → r ≤ k)
required_weight-least vs pos fits =
    let a = total_weight vs * vs.threshold_num in
    let d = vs.threshold_denom in
    (ceil a d, required-ceil vs pos fits, ceil-reaches a d pos, λ k p. ceil-least a d k pos p)

-- With a positive denominator, when the product of the total weight and the numerator is zero as a
-- uint64, the check passes without any signature.
pub check_weighted_threshold-wraps :
    (vs : ValidatorSet)
    → 0 < vs.threshold_denom
    → u64 (total_weight vs * vs.threshold_num) ≡ 0
    → check_weighted_threshold vs [] ≡ some true
unfolding check_weighted_threshold required_weight signed_weight_from
check_weighted_threshold-wraps vs pos none_left =
    rw (none_left) (ground (arith, zero-mod vs.threshold_denom, zero-div vs.threshold_denom))
