-- ===== src/Consensus/Continuity.antt =====
-- internal/consensus/chain.go: whether a list of headers is a chain of children. SHA-256 is the
-- parameter `sha256`; epochs are uint64, and a sum of them wraps.
pub mod Laws
use subnet.Prelude.{
  ℕ, ◌+◌, Bool, not, Option, none, some, List, [], ◌∷◌, ◌==◌, nat_eq, if◌then◌else◌, is_empty,
}
use mathlib.Core.Option
use subnet.Validators.{u64}
use subnet.Bytes.{Bytes, bytes_Eq}
use subnet.Checkpoint.{Header, canonical_hash_hex}

pub data ContinuityError : Type 0 where
  epoch_broken : ℕ → ℕ → ℕ → ContinuityError
  parent_mismatch : ℕ → Bytes → Bytes → ContinuityError

module _ (sha256 : Bytes → Bytes) where
  -- The loop from index `i`, behind the header `parent`; `none` for nil.
  unfoldable pub verify_from : ℕ → Header → List Header → Option ContinuityError
  verify_from i parent [] = none
  verify_from i parent (child ∷ headers) =
      let rest = verify_from (i + 1) child headers in
      let expected = canonical_hash_hex sha256 parent in
      if not (child.epoch == u64 (parent.epoch + 1))
      then some (epoch_broken i parent.epoch child.epoch)
      else if not (child.parent_cp_hash == expected)
      then some (parent_mismatch child.epoch child.parent_cp_hash expected)
      else rest

  unfoldable pub verify_chain_continuity : List Header → Option ContinuityError
  verify_chain_continuity [] = none
  verify_chain_continuity (h ∷ headers) = verify_from 1 h headers

  unfoldable pub discontinuity_from : ℕ → Header → List Header → Option ℕ
  discontinuity_from i parent [] = none
  discontinuity_from i parent (child ∷ headers) =
      let rest = discontinuity_from (i + 1) child headers in
      if not (child.epoch == u64 (parent.epoch + 1))
      then some i
      else if not (canonical_hash_hex sha256 parent == child.parent_cp_hash)
      then some i
      else rest

  -- `-1` is `none`.
  unfoldable pub find_first_discontinuity_index : List Header → Option ℕ
  find_first_discontinuity_index [] = none
  find_first_discontinuity_index (h ∷ headers) = discontinuity_from 1 h headers

  unfoldable anchor_from : ℕ → List Header → Bytes → Option ℕ
  anchor_from i [] anchor = none
  anchor_from i (h ∷ headers) anchor =
      if canonical_hash_hex sha256 h == anchor then some i else anchor_from (i + 1) headers anchor

  unfoldable find_anchor_index_by_hash : List Header → Bytes → Option ℕ
  find_anchor_index_by_hash headers anchor =
      if is_empty anchor then none else anchor_from 0 headers anchor

  -- `IsChildOf`
  unfoldable is_child_of : Header → Header → Bool
  is_child_of child parent = child.parent_cp_hash == canonical_hash_hex sha256 parent
