-- ===== src/Map/Each.antt =====
-- A property of every entry of a map, as `lookup` finds them.
use subnet.Prelude.{
  ◌≡◌, sym, subst, ◌∙◌, inl, inr, none, some, arith, ◌==◌, if◌then◌else◌, Bool-cases, some_eq,
  beq→eq, Eq,
}
use subnet.Map.{Map, lookup, insert, delete, lookup-insert, lookup-delete}

module _ {ℓ κ ν} {K : Type ℓ} {V : Type κ} ⦃e : Eq K⦄ where
  abbrev pub Each : (K → V → Type ν) → Map K V → Type (ℓ ⊔ κ ⊔ ν)
  Each P m = (k : K) (v : V) → lookup k m ≡ some v → P k v

  pub Each-insert :
      (P : K → V → Type ν) (k : K) (v : V) (m : Map K V) → P k v → Each P m → Each P (insert k v m)
  Each-insert P k v m p h j w f =
      let g : (if k == j then some v else lookup j m) ≡ some w = sym (lookup-insert k j v m) ∙ f in
      elim (Bool-cases (k == j)) [
        | inl y ↦
            let same : v ≡ w =
              some_eq (subst (λ t. (if t then some v else lookup j m) ≡ some w) y g) in
            subst (λ x. P x w) (beq→eq k j y) (subst (P k) same p)
        | inr n ↦ h j w (subst (λ t. (if t then some v else lookup j m) ≡ some w) n g)
      ]

  pub Each-delete : (P : K → V → Type ν) (k : K) (m : Map K V) → Each P m → Each P (delete k m)
  Each-delete P k m h j w f =
      let g : (if k == j then none else lookup j m) ≡ some w = sym (lookup-delete k j m) ∙ f in
      elim (Bool-cases (k == j)) [
        | inl y ↦
            absurd (ground (arith, subst (λ t. (if t then none else lookup j m) ≡ some w) y g))
        | inr n ↦ h j w (subst (λ t. (if t then none else lookup j m) ≡ some w) n g)
      ]
