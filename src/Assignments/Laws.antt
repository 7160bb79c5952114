-- ===== src/Assignments/Laws.antt =====
-- The index of intents leads to their assignments, and what a late confirmation does.
pub mod Calls
pub mod Late
use subnet.Prelude.{
  ℕ, String, ◌≡◌, refl, sym, ap, subst, ◌∙◌, inl, inr, true, false, some, [], ◌∷◌, arith, nat_eq,
  text_Eq, ◌==◌, Bool-cases, some_eq, is_some, beq_refl, beq→eq,
}
use subnet.Map.{
  Map, lookup, insert, delete, has, has-lookup, IsMap, insert-IsMap, delete-IsMap, lookup-insert,
  lookup-delete, lookup-insert_self, lookup-insert_ne,
}
use subnet.Map.Each.{Each, Each-insert, Each-delete}
use subnet.Assignments.{Assignment, AssignmentManager, cleanup_entries, is_stale}

-- The intent's entry leads to an assignment of that intent.
abbrev pub LeadsTo : Map String Assignment → String → String → Type 0
LeadsTo assignments intent_id id =
    (a : Assignment) × (lookup id assignments ≡ some a) × (a.intent_id ≡ intent_id)

pub record Inv (m : AssignmentManager) : Type 0 where
  pub distinct : IsMap m.assignments
  pub named : Each (λ id a. a.assignment_id ≡ id) m.assignments
  pub indexed : Each (LeadsTo m.assignments) m.assignments_by_intent

-- An assignment is written over one of the same intent, or where there was none.
pub write-LeadsTo :
    (id : String) (a : Assignment) (assignments : Map String Assignment) (i k : String)
    → ((old : Assignment) → lookup id assignments ≡ some old → old.intent_id ≡ a.intent_id)
    → LeadsTo assignments i k
    → LeadsTo (insert id a assignments) i k
write-LeadsTo id a assignments i k over (b, e, f) = elim (Bool-cases (id == k)) [
  | inl y ↦ (
    a,
    rw (lookup-insert id k a assignments, y) refl,
    sym (over b (subst (λ j. lookup j assignments ≡ some b) (sym (beq→eq id k y)) e)) ∙ f,
  )
  | inr n ↦ (b, rw (lookup-insert id k a assignments, n) e, f)
]

-- The rest of the entries that the loop walks agree with the map.
abbrev Agree : Map String Assignment → Map String Assignment → Type 0
Agree assignments entries =
    (k : String) (a b : Assignment)
    → lookup k entries ≡ some a
    → lookup k assignments ≡ some b
    → b ≡ a

Agree-rest :
    (id : String) (a : Assignment) (assignments rest : Map String Assignment)
    → has id rest ≡ false
    → Agree assignments ((id, a) ∷ rest)
    → Agree assignments rest
unfolding lookup
Agree-rest id a assignments rest h g k x y e f = elim (Bool-cases (id == k)) [
  | inl t ↦ absurd (
      ground (
        arith,
        h,
        has-lookup k rest,
        subst (λ j. has j rest ≡ false) (beq→eq id k t) h,
        ap is_some e,
      ))
  | inr n ↦ g k x y (rw n e) f
]

delete-Agree :
    (id : String) (assignments entries : Map String Assignment)
    → Agree assignments entries
    → Agree (delete id assignments) entries
delete-Agree id assignments entries g k a b e f = elim (Bool-cases (id == k)) [
  | inl t ↦ absurd (ground (arith, lookup-delete id k assignments, t, f))
  | inr n ↦ g k a b e (ground (arith, lookup-delete id k assignments, n, f))
]

-- An assignment is deleted with the entry of its intent.
cleaned-Inv :
    (id : String) (a : Assignment) (m : AssignmentManager)
    → ((b : Assignment) → lookup id m.assignments ≡ some b → b ≡ a)
    → Inv m
    → Inv (record m {
      assignments = delete id m.assignments;
      assignments_by_intent = delete a.intent_id m.assignments_by_intent;
    })
cleaned-Inv id a m same h = record {
  distinct = delete-IsMap id m.assignments h.distinct;
  named = Each-delete (λ k b. b.assignment_id ≡ k) id m.assignments h.named;
  indexed = λ i k f. elim (Bool-cases (a.intent_id == i)) [
    | inl y ↦ absurd (ground (arith, lookup-delete a.intent_id i m.assignments_by_intent, y, f))
    | inr n ↦
        let (b, e, g) =
          h.indexed i k
            (ground (arith, lookup-delete a.intent_id i m.assignments_by_intent, n, f)) in
        elim (Bool-cases (id == k)) [
          | inl t ↦
              let b_is : b ≡ a =
                same b (subst (λ j. lookup j m.assignments ≡ some b) (sym (beq→eq id k t)) e) in
              absurd (
                ground (
                  arith,
                  n,
                  subst (λ j. (j == j) ≡ true) (sym (ap (λ x. x.intent_id) b_is) ∙ g)
                      (beq_refl a.intent_id),
                  subst (λ j. (a.intent_id == j) ≡ true) (sym (ap (λ x. x.intent_id) b_is) ∙ g)
                      (beq_refl a.intent_id),
                ))
          | inr d ↦ (b, rw (lookup-delete id k m.assignments, d) e, g)
        ]
  ];
}

cleanup-Inv :
    (now older_than : ℕ) (m : AssignmentManager) (entries : Map String Assignment)
    → IsMap entries
    → Agree m.assignments entries
    → Inv m
    → Inv (cleanup_entries now older_than m entries).0
unfolding cleanup_entries
cleanup-Inv now older_than m [] d g h = h
cleanup-Inv now older_than m ((id, a) ∷ rest) d g h =
    let here : lookup id ((id, a) ∷ rest) ≡ some a = unfold lookup in rw (beq_refl id) refl in
    let tail = Agree-rest id a m.assignments rest d.0 g in
    let without : AssignmentManager = record m {
      assignments = delete id m.assignments;
      assignments_by_intent = delete a.intent_id m.assignments_by_intent;
    } in
    elim (Bool-cases (is_stale now older_than a)) [
      | inl y ↦
          rw (cleanup_entries, y)
            (cleanup-Inv now older_than without rest d.1 (delete-Agree id m.assignments rest tail)
              (cleaned-Inv id a m (λ b f. g id a b here f) h))
      | inr n ↦ rw (cleanup_entries, n) (cleanup-Inv now older_than m rest d.1 tail h)
    ]

pub cleanup_all-Inv :
    (now older_than : ℕ) (m : AssignmentManager)
    → Inv m
    → Inv (cleanup_entries now older_than m m.assignments).0
cleanup_all-Inv now older_than m h =
    cleanup-Inv now older_than m m.assignments h.distinct (λ k a b e f. some_eq (sym f ∙ e)) h
