-- ===== src/Consensus/Merkle/Levels.antt =====
-- The recursion over levels ends, and the two implementations agree.
use subnet.Prelude.{
  ℕ, zero, suc, ◌+◌, ◌≤◌, ◌≡◌, refl, sym, ap, ap₂, ◌∙◌, some, List, [], ◌∷◌, ◌++◌, map, arith,
  nat_eq, value_or, beq_refl, length,
}
use native.Mathlib.Nat.{add-zero, suc-add}
use mathlib.Core.List.{append-nil, append_assoc, Permᴰ}
use subnet.Map.{Map, lookup}
use subnet.Bytes.{Bytes, bytes_Eq}
use subnet.Bytes.Order.{sort_bytes-perm}
use subnet.Consensus.Merkle.{
  next_level, compute_root, compute_merkle_root, keyed, compute_sorted_merkle_root,
}
use subnet.Crypto.Merkle

map-keyed :
    (m m' : Map Bytes Bytes) (keys : List Bytes)
    → ((k : Bytes) → lookup k m ≡ lookup k m')
    → map (keyed m) keys ≡ map (keyed m') keys
map-keyed m m' [] e = refl
map-keyed m m' (k ∷ keys) e = ap₂ (λ v r. (k ++ value_or [] v) ∷ r) (e k) (map-keyed m m' keys e)

empty_lookup : (k v : Bytes) (m : Map Bytes Bytes) → ¬ (lookup k [] ≡ lookup k ((k, v) ∷ m))
unfolding lookup
empty_lookup k v m e = cc (rw (beq_refl k) at e)

module _ (sha256 : Bytes → Bytes) where
  pub length-next_level-le : (nodes : List Bytes) → length (next_level sha256 nodes) ≤ length nodes
  unfolding next_level
  length-next_level-le [] = omega arith
  length-next_level-le (a ∷ []) = omega arith
  length-next_level-le (a ∷ b ∷ nodes) = omega (arith, length-next_level-le nodes)

  -- With fuel for all but one of the nodes there is a root, and more fuel does not change it.
  pub compute_root-total :
      (fuel : ℕ) (nodes : List Bytes)
      → length nodes ≤ suc fuel
      → (r : Bytes) × ((more : ℕ) → compute_root sha256 (fuel + more) nodes ≡ some r)
  unfolding compute_root
  compute_root-total fuel [] h = (sha256 [], λ more. refl)
  compute_root-total fuel (a ∷ []) h = (a, λ more. refl)
  compute_root-total zero (a ∷ b ∷ nodes) h = absurd (omega arith)
  compute_root-total (suc fuel) (a ∷ b ∷ nodes) h =
      let (r, e) =
        compute_root-total fuel (sha256 (a ++ b) ∷ next_level sha256 nodes)
          (omega (arith, length-next_level-le nodes)) in
      (r, λ more. rw suc-add (e more))

  -- A tree has a root for every list of items.
  pub compute_merkle_root-total :
      (items : List Bytes) → (r : Bytes) × (compute_merkle_root sha256 items ≡ some r)
  unfolding compute_merkle_root
  compute_merkle_root-total [] = (sha256 [], refl)
  compute_merkle_root-total (d ∷ ds) =
      let (r, e) =
        compute_root-total (length (map sha256 (d ∷ ds))) (map sha256 (d ∷ ds)) (omega arith) in
      (
        r,
        ap (λ f. compute_root sha256 f (map sha256 (d ∷ ds)))
              (sym (add-zero (length (map sha256 (d ∷ ds)))))
            ∙ e 0,
      )

  append_level-next_level :
      (next nodes : List Bytes)
      → Merkle.append_level sha256 next nodes ≡ next ++ next_level sha256 nodes
  unfolding Merkle.append_level next_level
  append_level-next_level next [] = sym (append-nil next)
  append_level-next_level next (a ∷ []) = refl
  append_level-next_level next (a ∷ b ∷ nodes) =
      append_level-next_level (next ++ (sha256 (a ++ b) ∷ [])) nodes ∙ append_assoc next _ _

  reduce-compute_root :
      (fuel : ℕ) (a : Bytes) (nodes : List Bytes)
      → Merkle.reduce sha256 fuel (a ∷ nodes) ≡ compute_root sha256 fuel (a ∷ nodes)
  unfolding Merkle.reduce compute_root next_level
  reduce-compute_root fuel a [] = refl
  reduce-compute_root zero a (b ∷ nodes) = refl
  reduce-compute_root (suc fuel) a (b ∷ nodes) =
      ap (Merkle.reduce sha256 fuel) (append_level-next_level [] (a ∷ b ∷ nodes))
      ∙ reduce-compute_root fuel (sha256 (a ++ b)) (next_level sha256 nodes)

  -- The loop of package crypto over the hashes of a nonempty list of items computes the root that the
  -- recursion of package consensus computes of the items.
  pub loop_agrees :
      (d : Bytes) (ds : List Bytes)
      → Merkle.compute_merkle_root sha256 (map sha256 (d ∷ ds))
        ≡ compute_merkle_root sha256 (d ∷ ds)
  unfolding Merkle.compute_merkle_root compute_merkle_root
  loop_agrees d ds = reduce-compute_root _ (sha256 d) (map sha256 ds)

  -- The root over a map does not depend on the order in which its entries are met.
  pub sorted_root_order :
      (m m' : Map Bytes Bytes)
      → ((k : Bytes) → lookup k m ≡ lookup k m')
      → Permᴰ (map (λ (e : Bytes × Bytes). e.0) m) (map (λ (e : Bytes × Bytes). e.0) m')
      → compute_sorted_merkle_root sha256 m ≡ compute_sorted_merkle_root sha256 m'
  unfolding compute_sorted_merkle_root
  sorted_root_order [] [] e p = refl
  sorted_root_order [] ((k, v) ∷ m') e p = absurd (empty_lookup k v m' (e k))
  sorted_root_order ((k, v) ∷ m) [] e p = absurd (empty_lookup k v m (sym (e k)))
  sorted_root_order ((k, v) ∷ m) ((j, w) ∷ m') e p = ap (compute_merkle_root sha256) (
      map-keyed ((k, v) ∷ m) ((j, w) ∷ m') _ e
      ∙ ap (map (keyed ((j, w) ∷ m'))) (sort_bytes-perm _ _ p))
