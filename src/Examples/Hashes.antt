-- ===== src/Examples/Hashes.antt =====
-- Merkle roots, hashes and hexadecimal text.
use subnet.Prelude.{ℕ, ◌≡◌, refl, ◌≢◌, none, some, List, [], ◌∷◌, ◌++◌, map, arith, nat_eq, text_Eq}
use mathlib.Core.List.{Permᴰ}
use subnet.Map.{Map, lookup}
use subnet.Bytes.{Bytes, bytes_Eq, bytes_beq_iff}
use subnet.Consensus.Merkle.{compute_merkle_root, compute_sorted_merkle_root}
use subnet.Crypto.Merkle
use subnet.Consensus.Merkle.Levels.{compute_merkle_root-total, loop_agrees, sorted_root_order}
use subnet.Consensus.Merkle.Collisions.{keyed_collision, repeat_collision}
use subnet.Crypto.Hasher.{CheckpointHeader, compute_hash_for_verification}
use subnet.Crypto.Hasher.Encoding.{verification_hash-order}
use subnet.Examples.{sha, header_of, two_signatures}

abbrev item : ℕ → Bytes
item n = n ∷ []

abbrev items : List Bytes
items = item 1 ∷ item 2 ∷ item 3 ∷ []

compute_merkle_root-total_example : (r : Bytes) × (compute_merkle_root sha items ≡ some r)
compute_merkle_root-total_example = compute_merkle_root-total sha items

loop_agrees_example : Merkle.compute_merkle_root sha (map sha items) ≡ compute_merkle_root sha items
loop_agrees_example = loop_agrees sha (item 1) (item 2 ∷ item 3 ∷ [])

abbrev entries : Map Bytes Bytes
entries = (item 1, item 7) ∷ (item 2, item 8) ∷ []

abbrev turned : Map Bytes Bytes
turned = (item 2, item 8) ∷ (item 1, item 7) ∷ []

same_entries : (k : Bytes) → lookup k entries ≡ lookup k turned
unfolding lookup
same_entries k = ground (arith, bytes_beq_iff (item 1) k, bytes_beq_iff (item 2) k)

sorted_root_order_example :
    compute_sorted_merkle_root sha entries ≡ compute_sorted_merkle_root sha turned
sorted_root_order_example = sorted_root_order sha entries turned same_entries (Permᴰ.swap refl refl)

keyed_collision_example :
    (compute_sorted_merkle_root sha ((item 5, 6 ∷ item 7) ∷ [])
      ≡ compute_sorted_merkle_root sha ((item 5 ++ item 6, item 7) ∷ []))
    × (item 5 ≢ item 5 ++ item 6)
keyed_collision_example = keyed_collision sha (item 5) (item 7) 6

repeat_collision_example :
    compute_merkle_root sha (item 1 ∷ item 2 ∷ [] ++ (item 3 ∷ item 3 ∷ []))
    ≡ compute_merkle_root sha (item 1 ∷ item 2 ∷ [] ++ (item 3 ∷ []))
repeat_collision_example = repeat_collision sha (item 1) (item 2) [] (item 3) refl

-- The same header with other signatures: they are not signed.
abbrev unsigned : CheckpointHeader
unsigned = record (header_of 4) { signatures = none }

verification_hash-order_example :
    compute_hash_for_verification sha (record (header_of 4) { signatures = some two_signatures })
    ≡ compute_hash_for_verification sha (record (header_of 4) {
      signatures = some (record two_signatures { ecdsa_signatures = item 5 ∷ item 7 ∷ [] });
    })
verification_hash-order_example =
    verification_hash-order sha (header_of 4) two_signatures (item 5 ∷ item 7 ∷ [])
      (Permᴰ.swap refl refl)
