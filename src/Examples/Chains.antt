-- ===== src/Examples/Chains.antt =====
-- Chains of checkpoints.
use subnet.Prelude.{
  ℕ, suc, ◌+◌, ◌-◌, ◌^◌, ◌<◌, ◌≡◌, refl, ◌↔◌, inr, false, none, some, List, [], ◌∷◌, arith, nat_eq,
  text_Eq,
}
use subnet.Checkpoint.{Header}
use subnet.Crypto.Hasher.{CheckpointHeader}
use subnet.Consensus.Continuity.{verify_chain_continuity, find_first_discontinuity_index}
use subnet.Consensus.Continuity.Laws.{IsChain, BreaksAt, continuity_checks}
use subnet.Consensus.Chain.{
  Chain, Store, new_chain, set_store, get_chain_segment, convert_to_types_header,
  convert_from_types_header,
}
use subnet.Consensus.Chain.Convert.{kept, convert_round_trip}
use subnet.Crypto.Hasher.{compute_hash_for_verification}
use subnet.Consensus.Chain.Segment.{in_range, get_chain_segment_lem}
use subnet.Consensus.Chain.Linked.{Inv, add_all, add_all-new_chain}
use subnet.Examples.{sha, header_of}

abbrev saved : ℕ → Header
saved epoch = convert_to_types_header (header_of epoch)

continuity_checks_example :
    ((verify_chain_continuity sha (saved 1 ∷ saved 2 ∷ []) ≡ none)
      ↔ IsChain sha (saved 1) (saved 2 ∷ []))
    × ((find_first_discontinuity_index sha (saved 1 ∷ saved 2 ∷ []) ≡ none)
        ↔ IsChain sha (saved 1) (saved 2 ∷ []))
    × ((j : ℕ)
        → find_first_discontinuity_index sha (saved 1 ∷ saved 2 ∷ []) ≡ some j
        → BreaksAt sha 1 (saved 1) (saved 2 ∷ []) j)
continuity_checks_example = continuity_checks sha (saved 1) (saved 2 ∷ [])

convert_round_trip_example :
    (convert_from_types_header (convert_to_types_header (header_of 3)) ≡ kept (header_of 3))
    × (compute_hash_for_verification sha
          (convert_from_types_header (convert_to_types_header (header_of 3)))
        ≡ compute_hash_for_verification sha (header_of 3))
convert_round_trip_example =
    convert_round_trip sha (header_of 3) tt ((omega arith, tt), (omega arith, tt), tt, refl)

abbrev small : Chain ℕ
small = record {
  checkpoints = (2, header_of 2) ∷ (1, header_of 1) ∷ [];
  latest = some (header_of 2);
  store = none;
}

get_chain_segment_lem_example :
    (3 + 1 < 2 ^ 64
      → get_chain_segment (suc (suc 3 - 1)) small 1 3 ≡ inr (some (in_range small 1 (suc 3 - 1))))
    × (3 ≡ 2 ^ 64 - 1 → (fuel : ℕ) → get_chain_segment fuel small 1 3 ≡ inr none)
get_chain_segment_lem_example = get_chain_segment_lem small 1 3 (omega arith) (omega arith)

-- A store that counts what it saves and never answers.
abbrev counter : Store ℕ
counter = record { save_header = λ s h. (suc s, false); get_header = λ s epoch. none }

abbrev offered : List CheckpointHeader
offered = header_of 1 ∷ header_of 1 ∷ header_of 4 ∷ []

add_all-new_chain_example :
    Inv sha counter
      (add_all sha counter (set_store new_chain (some 0)) [] offered).0
      (add_all sha counter (set_store new_chain (some 0)) [] offered).1
add_all-new_chain_example = add_all-new_chain sha counter (some 0) offered
