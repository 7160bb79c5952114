-- ===== src/Validators/Index.antt =====
-- The position of a validator in its set, and the signers of a signature map by position.
use subnet.Prelude.{
  ℕ, zero, suc, ◌<◌, String, ◌≡◌, refl, sym, ap, ◌∙◌, ◌≢◌, inl, inr, Bool, false, ◌||◌, Option,
  none, some, List, [], ◌∷◌, arith, ◌==◌, nat_eq, text_Eq, Bool-cases, Option-cases, some_eq,
  beq_refl, beq→eq, length,
}
use subnet.Map.{Map, insert, has}
use subnet.Validators.{Validator, index_by_id}

abbrev id_at : List Validator → ℕ → Option String
id_at [] i = none
id_at (v ∷ vs) zero = some v.id
id_at (v ∷ vs) (suc i) = id_at vs i

-- `IndexByID` answers a position in the set at which the identifier stands.
pub index_by_id-id_at :
    (id : String) (vs : List Validator) (i : ℕ)
    → index_by_id id vs ≡ some i
    → (i < length vs) × (id_at vs i ≡ some id)
unfolding index_by_id
index_by_id-id_at id [] i h = cc
index_by_id-id_at id (v ∷ vs) zero h = elim (Bool-cases (v.id == id)) [
  | inl y ↦ (omega arith, ap some (beq→eq _ _ y))
  | inr n ↦ elim (Option-cases (index_by_id id vs)) [
    | inl e ↦ cc (rw (n, e) at h)
    | inr (j, e) ↦ absurd (ground (arith, n, e))
  ]
]
index_by_id-id_at id (v ∷ vs) (suc i) h = elim (Bool-cases (v.id == id)) [
  | inl y ↦ absurd (ground (arith, y))
  | inr n ↦ elim (Option-cases (index_by_id id vs)) [
    | inl e ↦ absurd (ground (arith, n, e))
    | inr (j, e) ↦
        let ih = index_by_id-id_at id vs j e in
        let same : j ≡ i = ground (arith, n, e) in
        (omega (arith, ih.0), ap (id_at vs) (sym same) ∙ ih.1)
  ]
]

abbrev pub is_index : Option ℕ → ℕ → Bool
is_index none i = false
is_index (some j) i = j == i

-- Is validator number `i` the signer of a stored signature?
abbrev pub marked {ℓ} : {S : Type ℓ} → List Validator → ℕ → Map String S → Bool
marked vs i [] = false
marked vs i ((id, sig) ∷ m) = is_index (index_by_id id vs) i || marked vs i m

beq_clash : (j id : String) → j ≡ id → (j == id) ≢ false
beq_clash j id e n = cc (sym n, ap (λ k. k == id) e, beq_refl id)

-- Another identifier has another position.
index_other :
    (vs : List Validator) (j id : String) (i : ℕ)
    → index_by_id id vs ≡ some i
    → (j == id) ≡ false
    → is_index (index_by_id j vs) i ≡ false
index_other vs j id i e n = elim (Option-cases (index_by_id j vs)) [
  | inl p ↦ rw p refl
  | inr (k, p) ↦ elim (Bool-cases (k == i)) [
    | inr x ↦ rw (p, x) refl
    | inl y ↦
        let at_k = (index_by_id-id_at j vs k p).1 in
        let at_i = (index_by_id-id_at id vs i e).1 in
        let same = some_eq (sym at_k ∙ ap (id_at vs) (beq→eq k i y) ∙ at_i) in
        absurd (beq_clash j id same n)
  ]
]

module _ {ℓ} {S : Type ℓ} (vs : List Validator) where
  pub marked-insert :
      (i : ℕ) (id : String) (sig : S) (m : Map String S)
      → marked vs i (insert id sig m) ≡ (is_index (index_by_id id vs) i || marked vs i m)
  unfolding insert
  marked-insert i id sig [] = refl
  marked-insert i id sig ((j, s) ∷ m) = elim (Bool-cases (j == id)) [
    | inl y ↦ rw (y, beq→eq j id y) (ground arith)
    | inr n ↦ rw (n, marked-insert i id sig m) (ground arith)
  ]

  -- The position of an identifier is marked if and only if the identifier itself has signed.
  pub marked-has :
      (id : String) (i : ℕ) (m : Map String S)
      → index_by_id id vs ≡ some i
      → marked vs i m ≡ has id m
  unfolding has
  marked-has id i [] e = refl
  marked-has id i ((j, s) ∷ m) e = elim (Bool-cases (j == id)) [
    | inl y ↦ rw (y, ap (λ k. index_by_id k vs) (beq→eq j id y), e, beq_refl i) refl
    | inr n ↦ rw (n, marked-has id i m e, index_other vs j id i e n) refl
  ]
