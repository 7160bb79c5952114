-- ===== src/Map.antt =====
-- Go maps as association lists that hold each key once. The order of the entries stands for one of
-- the orders in which `range` may walk the map.
pub mod Each
use subnet.Prelude.{
  suc, ◌≡◌, refl, ◌≢◌, inl, inr, Bool, false, not, ◌&&◌, ◌||◌, Option, none, some, List, [], ◌∷◌,
  arith, ◌==◌, if◌then◌else◌, Bool-cases, is_some, beq_refl, beq_ne, Eq, length,
}

-- The values that a map holds, by key.
abbrev pub Map {ℓ κ} : Type ℓ → Type κ → Type (ℓ ⊔ κ)
Map K V = List (K × V)

module _ {ℓ κ} {K : Type ℓ} {V : Type κ} ⦃e : Eq K⦄ where
  unfoldable pub lookup : K → Map K V → Option V
  lookup k [] = none
  lookup k ((j, v) ∷ m) = if j == k then some v else lookup k m

  -- `m[k] = v`
  unfoldable pub insert : K → V → Map K V → Map K V
  insert k v [] = (k, v) ∷ []
  insert k v ((j, w) ∷ m) = if j == k then (j, v) ∷ m else (j, w) ∷ insert k v m

  -- `delete(m, k)`
  unfoldable pub delete : K → Map K V → Map K V
  delete k [] = []
  delete k ((j, w) ∷ m) = if j == k then delete k m else (j, w) ∷ delete k m

  unfoldable pub has : K → Map K V → Bool
  has k [] = false
  has k ((j, w) ∷ m) = j == k || has k m

  pub lookup-insert :
      (key other : K) (new : V) (entries : Map K V)
      → lookup other (insert key new entries)
        ≡ (if key == other then some new else lookup other entries)
  unfolding lookup insert
  lookup-insert key other new [] = refl
  lookup-insert key other new ((i, w) ∷ rest) = ground (
    arith,
    e.beq_iff key other,
    e.beq_iff i key,
    e.beq_iff i other,
    lookup-insert key other new rest,
  )

  pub lookup-delete :
      (k j : K) (m : Map K V) → lookup j (delete k m) ≡ (if k == j then none else lookup j m)
  unfolding lookup delete
  lookup-delete k j [] = ground arith
  lookup-delete k j ((i, w) ∷ m) =
      ground (arith, e.beq_iff k j, e.beq_iff i k, e.beq_iff i j, lookup-delete k j m)

  pub lookup-insert_self : (k : K) (v : V) (m : Map K V) → lookup k (insert k v m) ≡ some v
  lookup-insert_self k v m = rw (lookup-insert k k v m, beq_refl k)

  pub lookup-insert_ne :
      (k j : K) (v : V) (m : Map K V) → k ≢ j → lookup j (insert k v m) ≡ lookup j m
  lookup-insert_ne k j v m h = rw (lookup-insert k j v m, beq_ne k j h)

  pub has-lookup : (k : K) (m : Map K V) → has k m ≡ is_some (lookup k m)
  unfolding has lookup
  has-lookup k [] = refl
  has-lookup k ((j, w) ∷ m) = ground (arith, has-lookup k m)

  pub has-insert : (k j : K) (v : V) (m : Map K V) → has j (insert k v m) ≡ (k == j || has j m)
  unfolding has insert
  has-insert k j v [] = refl
  has-insert k j v ((i, w) ∷ m) =
      ground (arith, e.beq_iff k j, e.beq_iff i k, e.beq_iff i j, has-insert k j v m)

  -- The number of entries, `len(m)`.
  pub length-insert :
      (k : K) (v : V) (m : Map K V)
      → length (insert k v m) ≡ (if has k m then length m else suc (length m))
  unfolding has insert
  length-insert k v [] = refl
  length-insert k v ((i, w) ∷ m) = ground (arith, length-insert k v m)

  -- No key occurs twice.
  abbrev pub IsMap : Map K V → Type 0
  IsMap [] = Unit {0}
  IsMap ((k, v) ∷ m) = (has k m ≡ false) × IsMap m

  pub insert-IsMap : (k : K) (v : V) (m : Map K V) → IsMap m → IsMap (insert k v m)
  unfolding insert has
  insert-IsMap k v [] h = (refl, tt)
  insert-IsMap k v ((i, w) ∷ m) h =
      ground (arith, e.beq_iff k i, e.beq_iff i k, has-insert k i v m, insert-IsMap k v m h.1)

  pub has-delete : (k j : K) (m : Map K V) → has j (delete k m) ≡ (not (k == j) && has j m)
  unfolding has delete
  has-delete k j [] = ground arith
  has-delete k j ((i, w) ∷ m) =
      ground (arith, e.beq_iff k j, e.beq_iff i k, e.beq_iff i j, has-delete k j m)

  pub delete-IsMap : (k : K) (m : Map K V) → IsMap m → IsMap (delete k m)
  unfolding delete
  delete-IsMap k [] h = tt
  delete-IsMap k ((i, w) ∷ m) h = elim (Bool-cases (i == k)) [
    | inl y ↦ rw y (delete-IsMap k m h.1)
    | inr n ↦ rw n (ground (arith, has-delete k i m, h.0), delete-IsMap k m h.1)
  ]
