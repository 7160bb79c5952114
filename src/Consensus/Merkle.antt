-- ===== src/Consensus/Merkle.antt =====
-- internal/consensus/merkle.go. SHA-256 is the
-- parameter `sha256`; nothing is assumed of it. A recursion on levels takes fuel and answers
-- `none` where that runs out; `Merkle.Levels` shows that it does not.
pub mod Levels
pub mod Collisions
use subnet.Prelude.{
  ℕ, zero, suc, Option, none, some, List, [], ◌∷◌, ◌++◌, map, nat_eq, if◌then◌else◌, value_or,
  is_empty, length,
}
use subnet.Map.{Map, lookup}
use subnet.Bytes.{Bytes, bytes_Eq, sort_bytes}

record MerkleTree : Type 0 where
  pub leaves : List Bytes
  pub root : Option Bytes

-- `append([]byte(k), items[k]...)`; a missing entry is an empty slice.
abbrev pub keyed : Map Bytes Bytes → Bytes → Bytes
keyed items k = k ++ value_or [] (lookup k items)

module _ (sha256 : Bytes → Bytes) where
  abbrev empty_hash : Bytes
  empty_hash = sha256 []

  -- The loop of `computeRoot` over pairs; an odd node is hashed with itself.
  unfoldable pub next_level : List Bytes → List Bytes
  next_level [] = []
  next_level (a ∷ []) = sha256 (a ++ a) ∷ []
  next_level (a ∷ b ∷ nodes) = sha256 (a ++ b) ∷ next_level nodes

  unfoldable pub compute_root : ℕ → List Bytes → Option Bytes
  compute_root fuel [] = some empty_hash
  compute_root fuel (a ∷ []) = some a
  compute_root zero (a ∷ b ∷ nodes) = none
  compute_root (suc fuel) (a ∷ b ∷ nodes) = compute_root fuel (sha256 (a ++ b) ∷ next_level nodes)

  unfoldable new_merkle_tree : List Bytes → MerkleTree
  new_merkle_tree [] = record { leaves = []; root = some empty_hash }
  new_merkle_tree (d ∷ ds) =
      let leaves = map sha256 (d ∷ ds) in
      record { leaves = leaves; root = compute_root (length leaves) leaves }

  unfoldable pub compute_merkle_root : List Bytes → Option Bytes
  unfolding new_merkle_tree
  compute_merkle_root items = (new_merkle_tree items).root

  unfoldable pub compute_sorted_merkle_root : Map Bytes Bytes → Option Bytes
  compute_sorted_merkle_root items =
      if is_empty items
      then some empty_hash
      else compute_merkle_root (map (keyed items) (sort_bytes (map (λ e. e.0) items)))
