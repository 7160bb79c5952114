-- ===== src/Consensus/Merkle/Collisions.antt =====
-- Different inputs with the same root.
use subnet.Prelude.{
  ℕ, suc, ◌+◌, ◌≡◌, refl, sym, ap, ap₂, ◌∙◌, ◌≢◌, Bool, true, false, List, [], ◌∷◌, ◌++◌, map,
  arith, nat_eq, beq_refl, length, length-append,
}
use native.Mathlib.Nat.{add-zero}
use mathlib.Core.List.{append_assoc, map-append}
use subnet.Map.{lookup}
use subnet.Bytes.{Bytes, bytes_Eq, sort_bytes, insert_sorted}
use subnet.Consensus.Merkle.{
  next_level, compute_root, compute_merkle_root, compute_sorted_merkle_root,
}
use subnet.Consensus.Merkle.Levels.{compute_root-total, length-next_level-le}

-- Is the number of entries even?
abbrev is_even {ℓ} : {A : Type ℓ} → List A → Bool
is_even [] = true
is_even (x ∷ []) = false
is_even (x ∷ y ∷ xs) = is_even xs

is_even-map : (f : Bytes → Bytes) (xs : List Bytes) → is_even (map f xs) ≡ is_even xs
is_even-map f [] = refl
is_even-map f (x ∷ []) = refl
is_even-map f (x ∷ y ∷ xs) = is_even-map f xs

module _ (sha256 : Bytes → Bytes) where
  -- A byte moved from the front of the value to the end of the key of a map's only entry leaves
  -- the root as it was, though the two maps differ: the key in front of the value does not tell
  -- them apart.
  pub keyed_collision :
      (k v : Bytes) (c : ℕ)
      → (compute_sorted_merkle_root sha256 ((k, c ∷ v) ∷ [])
          ≡ compute_sorted_merkle_root sha256 ((k ++ (c ∷ []), v) ∷ []))
        × (k ≢ k ++ (c ∷ []))
  unfolding compute_sorted_merkle_root compute_merkle_root compute_root sort_bytes insert_sorted
      lookup
  keyed_collision k v c = (
    rw (beq_refl k, beq_refl (k ++ (c ∷ [])), append_assoc k (c ∷ []) v) refl,
    λ e. omega (arith, ap length e, length-append k (c ∷ [])),
  )

  next_level-repeat :
      (ys : List Bytes) (a : Bytes)
      → is_even ys ≡ true
      → next_level sha256 (ys ++ (a ∷ a ∷ [])) ≡ next_level sha256 (ys ++ (a ∷ []))
  unfolding next_level
  next_level-repeat [] a h = refl
  next_level-repeat (x ∷ []) a h = cc
  next_level-repeat (x ∷ y ∷ ys) a h = ap (λ r. sha256 (x ++ y) ∷ r) (next_level-repeat ys a h)

  longer :
      (zs : List Bytes) (d : Bytes)
      → suc (length (map sha256 (zs ++ (d ∷ d ∷ []))))
        ≡ suc (length (map sha256 (zs ++ (d ∷ [])))) + 1
  longer [] d = refl
  longer (z ∷ zs) d = omega (arith, longer zs d)

  mapped-repeat :
      (zs : List Bytes) (d : Bytes)
      → is_even zs ≡ true
      → next_level sha256 (map sha256 (zs ++ (d ∷ d ∷ [])))
        ≡ next_level sha256 (map sha256 (zs ++ (d ∷ [])))
  mapped-repeat zs d h =
      rw (map-append sha256 zs (d ∷ d ∷ []), map-append sha256 zs (d ∷ []))
        (next_level-repeat (map sha256 zs) (sha256 d) (is_even-map sha256 zs ∙ h))

  -- A list of odd length from three on has the root of the list with its last item repeated.
  pub repeat_collision :
      (p q : Bytes) (zs : List Bytes) (d : Bytes)
      → is_even zs ≡ true
      → compute_merkle_root sha256 (p ∷ q ∷ zs ++ (d ∷ d ∷ []))
        ≡ compute_merkle_root sha256 (p ∷ q ∷ zs ++ (d ∷ []))
  unfolding compute_merkle_root compute_root
  repeat_collision p q zs d h =
      let one = map sha256 (zs ++ (d ∷ [])) in
      let head = sha256 (sha256 p ++ sha256 q) in
      let (r, e) =
        compute_root-total sha256 (suc (length one)) (head ∷ next_level sha256 one)
          (omega (arith, length-next_level-le sha256 one)) in
      ap₂ (λ f l. compute_root sha256 f (head ∷ l)) (longer zs d) (mapped-repeat zs d h)
      ∙ e 1
      ∙ sym (e 0)
      ∙ ap (λ f. compute_root sha256 f (head ∷ next_level sha256 one)) (add-zero (suc (length one)))
