-- ===== src/Validators.antt =====
-- The validator set of internal/types/types.go: members, thresholds and weights.
-- `int` fields hold the nonnegative numbers of a configuration; a count of list entries does not
-- reach 2^63. Sums and products of `int` and `uint64` wrap. An answer `none` of a threshold is Go's panic on a
-- division by zero.
pub mod Members
pub mod Index
pub mod Threshold
pub mod Weight
use mathlib.Core.Option
use subnet.Prelude.{
  ℕ, suc, ◌+◌, ◌*◌, ◌/◌, ◌%◌, String, Bool, true, ◌||◌, Option, none, some, List, [], ◌∷◌, map, ltb,
  leb, nat_eq, text_Eq, ◌==◌, if◌then◌else◌, is_some, length,
}
use subnet.Map.{Map, has, insert}

pub record Validator : Type 0 where
  pub id : String
  pub pub_key : List ℕ
  pub weight : ℕ
  pub endpoint : String

pub record ValidatorSet : Type 0 where
  pub validators : List Validator
  pub min_validators : ℕ
  pub threshold_num : ℕ
  pub threshold_denom : ℕ
  pub effective_epoch : ℕ

pub data SetError : Type 0 where
  insufficient_validators : ℕ → ℕ → SetError
  invalid_threshold : ℕ → ℕ → SetError
  numerator_above_denominator : ℕ → ℕ → SetError
  duplicate_id : String → SetError

-- The loop over `seen`.
unfoldable pub find_duplicate : Map String Bool → List Validator → Option SetError
find_duplicate seen [] = none
find_duplicate seen (v ∷ vs) =
    if has v.id seen then some (duplicate_id v.id) else find_duplicate (insert v.id true seen) vs

-- The error of `Validate`, `none` for nil.
unfoldable pub validate : ValidatorSet → Option SetError
validate vs =
    let n = length vs.validators in
    if ltb n vs.min_validators
    then some (insufficient_validators n vs.min_validators)
    else if (vs.threshold_num == 0) || (vs.threshold_denom == 0)
    then some (invalid_threshold vs.threshold_num vs.threshold_denom)
    else if ltb vs.threshold_denom vs.threshold_num
    then some (numerator_above_denominator vs.threshold_num vs.threshold_denom)
    else find_duplicate [] vs.validators

-- `-1` is `none`.
unfoldable pub index_by_id : String → List Validator → Option ℕ
index_by_id id [] = none
index_by_id id (v ∷ vs) = if v.id == id then some 0 else Option.map suc (index_by_id id vs)

unfoldable pub get_validator : String → List Validator → Option Validator
get_validator id [] = none
get_validator id (v ∷ vs) = if v.id == id then some v else get_validator id vs

unfoldable upsert_in : Validator → List Validator → List Validator
upsert_in v [] = v ∷ []
upsert_in v (w ∷ ws) = if w.id == v.id then v ∷ ws else w ∷ upsert_in v ws

unfoldable upsert_validator : ValidatorSet → Validator → ValidatorSet
upsert_validator vs v = record vs { validators = upsert_in v vs.validators }

unfoldable remove_in : String → List Validator → List Validator
remove_in id [] = []
remove_in id (w ∷ ws) = if w.id == id then ws else w ∷ remove_in id ws

-- The new set, and whether a validator was removed.
unfoldable remove_validator : ValidatorSet → String → ValidatorSet × Bool
remove_validator vs id =
    (record vs { validators = remove_in id vs.validators }, is_some (index_by_id id vs.validators))

abbrev pub u64 : ℕ → ℕ
u64 n = n % 18446744073709551616

-- `ceil(n * num / denom)`, at least 1. The product is an `int`: from 2 ^ 63 on its bits stand for a
-- negative number, whose quotient and remainder are not positive.
unfoldable pub required_signatures : ValidatorSet → Option ℕ
required_signatures vs =
    let product = u64 (length vs.validators * vs.threshold_num) in
    let required = product / vs.threshold_denom in
    let rounded = if ltb 0 (product % vs.threshold_denom) then required + 1 else required in
    if vs.threshold_denom == 0
    then none
    else if leb 9223372036854775808 product
    then some 1
    else some (if ltb rounded 1 then 1 else rounded)

unfoldable pub check_threshold : ValidatorSet → ℕ → Option Bool
check_threshold vs signatures =
    Option.map (λ required. leb required signatures) (required_signatures vs)

unfoldable pub total_weight_from : ℕ → List Validator → ℕ
total_weight_from total [] = total
total_weight_from total (v ∷ vs) = total_weight_from (u64 (total + v.weight)) vs

unfoldable pub total_weight : ValidatorSet → ℕ
total_weight vs = total_weight_from 0 vs.validators

unfoldable pub required_weight : ValidatorSet → Option ℕ
required_weight vs =
    let product = u64 (total_weight vs * vs.threshold_num) in
    let required = product / vs.threshold_denom in
    if vs.threshold_denom == 0
    then none
    else some (if ltb 0 (product % vs.threshold_denom) then u64 (required + 1) else required)

-- The loop over the keys of the signature map.
unfoldable pub signed_weight_from : ℕ → List Validator → List String → ℕ
signed_weight_from total vs [] = total
signed_weight_from total vs (id ∷ ids) =
    signed_weight_from (add_weight (get_validator id vs)) vs ids
  where
    add_weight : Option Validator → ℕ
    add_weight none = total
    add_weight (some v) = u64 (total + v.weight)

unfoldable pub check_weighted_threshold : ValidatorSet → List String → Option Bool
check_weighted_threshold vs signers =
    Option.map (λ required. leb required (signed_weight_from 0 vs.validators signers))
      (required_weight vs)
