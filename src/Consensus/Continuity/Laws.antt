-- ===== src/Consensus/Continuity/Laws.antt =====
-- What the two checks of a list of headers say, and that they agree.
use subnet.Prelude.{ℕ, ◌+◌, ◌≡◌, refl, ◌↔◌, ◌⊎◌, none, some, List, [], ◌∷◌, arith, nat_eq}
use subnet.Validators.{u64}
use subnet.Bytes.{Bytes, bytes_Eq, bytes_beq_iff}
use subnet.Checkpoint.{Header, canonical_hash_hex}
use subnet.Consensus.Continuity.{
  verify_from, verify_chain_continuity, discontinuity_from, find_first_discontinuity_index,
}

module _ (sha256 : Bytes → Bytes) where
  -- The next epoch, and the hash of the parent.
  abbrev IsChild : Header → Header → Type 0
  IsChild child parent =
      (child.epoch ≡ u64 (parent.epoch + 1))
      × (child.parent_cp_hash ≡ canonical_hash_hex sha256 parent)

  -- Each header is a child of the one before it.
  abbrev pub IsChain : Header → List Header → Type 0
  IsChain parent [] = Unit {0}
  IsChain parent (child ∷ headers) = IsChild child parent × IsChain child headers

  verify_from_iff :
      (i : ℕ) (parent : Header) (headers : List Header)
      → (verify_from sha256 i parent headers ≡ none) ↔ IsChain parent headers
  unfolding verify_from
  verify_from_iff i parent [] = (λ _. tt, λ _. refl)
  verify_from_iff i parent (child ∷ headers) =
      let ih = verify_from_iff (i + 1) child headers in
      let hashes = bytes_beq_iff child.parent_cp_hash (canonical_hash_hex sha256 parent) in
      (λ h. ground (arith, ih, hashes), λ h. ground (arith, ih, hashes))

  -- The index that the search answers: everything before it is a chain, and the header there is no
  -- child of the one before.
  abbrev pub BreaksAt : ℕ → Header → List Header → ℕ → Type 0
  BreaksAt i parent [] j = ⊥
  BreaksAt i parent (child ∷ headers) j =
      ((j ≡ i) × ¬ IsChild child parent) ⊎ (IsChild child parent × BreaksAt (i + 1) child headers j)

  discontinuity_from_iff :
      (i : ℕ) (parent : Header) (headers : List Header)
      → (discontinuity_from sha256 i parent headers ≡ none) ↔ IsChain parent headers
  unfolding discontinuity_from
  discontinuity_from_iff i parent [] = (λ _. tt, λ _. refl)
  discontinuity_from_iff i parent (child ∷ headers) =
      let ih = discontinuity_from_iff (i + 1) child headers in
      let hashes = bytes_beq_iff (canonical_hash_hex sha256 parent) child.parent_cp_hash in
      (λ h. ground (arith, ih, hashes), λ h. ground (arith, ih, hashes))

  discontinuity_from-breaks :
      (i j : ℕ) (parent : Header) (headers : List Header)
      → discontinuity_from sha256 i parent headers ≡ some j
      → BreaksAt i parent headers j
  unfolding discontinuity_from
  discontinuity_from-breaks i j parent [] e = cc
  discontinuity_from-breaks i j parent (child ∷ headers) e =
      let hashes = bytes_beq_iff (canonical_hash_hex sha256 parent) child.parent_cp_hash in
      ground (arith, hashes, discontinuity_from-breaks (i + 1) j child headers)

  -- Either check of a list with a first header passes exactly if each header is a child of the one
  -- before it; where the search answers an index, the header there is the first that is not.
  pub continuity_checks :
      (h : Header) (headers : List Header)
      → ((verify_chain_continuity sha256 (h ∷ headers) ≡ none) ↔ IsChain h headers)
        × ((find_first_discontinuity_index sha256 (h ∷ headers) ≡ none) ↔ IsChain h headers)
        × ((j : ℕ)
            → find_first_discontinuity_index sha256 (h ∷ headers) ≡ some j
            → BreaksAt 1 h headers j)
  unfolding verify_chain_continuity find_first_discontinuity_index
  continuity_checks h headers = (
    verify_from_iff 1 h headers,
    discontinuity_from_iff 1 h headers,
    λ j. discontinuity_from-breaks 1 j h headers,
  )
