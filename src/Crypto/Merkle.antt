-- ===== src/Crypto/Merkle.antt =====
-- `ComputeMerkleRoot` of internal/crypto/checkpoint.go: a loop over levels, each built by appending
-- to an empty slice. SHA-256 is the parameter `sha256`. A loop takes fuel and answers `none` where
-- that runs out; it does not, since it agrees with the recursion of package consensus.
use subnet.Prelude.{
  ℕ, zero, suc, Option, none, some, List, [], ◌∷◌, ◌++◌, nat_eq, length, replicate,
}
use subnet.Bytes.{Bytes}

module _ (sha256 : Bytes → Bytes) where
  unfoldable pub append_level : List Bytes → List Bytes → List Bytes
  append_level next [] = next
  append_level next (a ∷ []) = next ++ (sha256 (a ++ a) ∷ [])
  append_level next (a ∷ b ∷ current) = append_level (next ++ (sha256 (a ++ b) ∷ [])) current

  unfoldable pub reduce : ℕ → List Bytes → Option Bytes
  reduce fuel [] = none
  reduce fuel (a ∷ []) = some a
  reduce zero (a ∷ b ∷ current) = none
  reduce (suc fuel) (a ∷ b ∷ current) = reduce fuel (append_level [] (a ∷ b ∷ current))

  -- Without hashes the root is 32 zero bytes.
  unfoldable pub compute_merkle_root : List Bytes → Option Bytes
  compute_merkle_root [] = some (replicate 32 0)
  compute_merkle_root (h ∷ hashes) = reduce (length (h ∷ hashes)) (h ∷ hashes)
