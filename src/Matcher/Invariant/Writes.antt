-- ===== src/Matcher/Invariant/Writes.antt =====
-- The writes of the server's maps that keep the invariant.
use subnet.Prelude.{
  String, ◌≡◌, refl, sym, ap, subst, ◌∙◌, inl, inr, true, false, none, some, List, [], arith,
  text_Eq, ◌==◌, Bool-cases, value_or, is_some, beq→eq,
}
use subnet.Map.{Map, lookup, insert, delete, lookup-insert, lookup-delete, lookup-insert_self}
use subnet.Map.Each.{Each, Each-insert, Each-delete}
use subnet.Matcher.{Bid, IntentWithWindow, MatchingResult, PendingAssignment}
use subnet.Matcher.Invariant.{NamesCheapest, IsMatched, IsResult, IsIssued, IsPending}

-- Some other entry of a map, where a write has not been.
module _ {V : Type 0} where
  pub written :
      (k j : String) (v : V) (m : Map String V) → (k == j) ≡ true → lookup j (insert k v m) ≡ some v
  written k j v m y = rw (lookup-insert k j v m, y) refl

  pub untouched :
      (k j : String) (v : V) (m : Map String V)
      → (k == j) ≡ false
      → lookup j (insert k v m) ≡ lookup j m
  untouched k j v m n = rw (lookup-insert k j v m, n) refl

  pub undeleted :
      (k j : String) (m : Map String V) → (k == j) ≡ false → lookup j (delete k m) ≡ lookup j m
  undeleted k j m n = rw (lookup-delete k j m, n) refl

  pub deleted : (k j : String) (m : Map String V) → (k == j) ≡ true → lookup j (delete k m) ≡ none
  deleted k j m y = rw (lookup-delete k j m, y) refl

IsMatched-eq :
    (intents intents' : Map String IntentWithWindow) (id : String)
    → lookup id intents' ≡ lookup id intents
    → IsMatched intents id
    → IsMatched intents' id
IsMatched-eq intents intents' id e (w, f, m) = (w, e ∙ f, m)

-- The intent becomes matched, with the bids as they are.
pub matched-results :
    (id : String) (w : IntentWithWindow) (intents : Map String IntentWithWindow)
    (bids : Map String (List Bid)) (rs : Map String MatchingResult)
    → w.matched ≡ true
    → Each (IsResult intents bids) rs
    → Each (IsResult (insert id w intents) bids) rs
matched-results id w intents bids rs t h k r f =
    let (e, m, n) = h k r f in
    (
      e,
      elim (Bool-cases (id == k)) [
        | inl y ↦ (w, written id k w intents y, t)
        | inr d ↦ IsMatched-eq intents (insert id w intents) k (untouched id k w intents d) m
      ],
      n,
    )

-- The results of other intents, when an intent's window and bids are written.
pub other-results :
    (id : String) (intents intents' : Map String IntentWithWindow)
    (bids bids' : Map String (List Bid)) (rs : Map String MatchingResult)
    → ((k : String) → (id == k) ≡ false → lookup k intents' ≡ lookup k intents)
    → ((k : String) → (id == k) ≡ false → lookup k bids' ≡ lookup k bids)
    → ((k : String) (r : MatchingResult) → (id == k) ≡ true → lookup k rs ≡ some r → ⊥)
    → Each (IsResult intents bids) rs
    → Each (IsResult intents' bids') rs
other-results id intents intents' bids bids' rs a b none_here h k r f =
    elim (Bool-cases (id == k)) [
      | inl y ↦ absurd (none_here k r y f)
      | inr d ↦
          let (e, m, n) = h k r f in
          (
            e,
            IsMatched-eq intents intents' k (a k d) m,
            subst (λ o. NamesCheapest r (value_or [] o)) (sym (b k d)) n,
          )
    ]

-- A result that is deleted.
pub deleted-results :
    (id : String) (intents intents' : Map String IntentWithWindow)
    (bids bids' : Map String (List Bid)) (rs : Map String MatchingResult)
    → ((k : String) → (id == k) ≡ false → lookup k intents' ≡ lookup k intents)
    → ((k : String) → (id == k) ≡ false → lookup k bids' ≡ lookup k bids)
    → Each (IsResult intents bids) rs
    → Each (IsResult intents' bids') (delete id rs)
deleted-results id intents intents' bids bids' rs a b h =
    other-results id intents intents' bids bids' (delete id rs) a b
      (λ k r y f. absurd (ground (arith, sym (deleted id k rs y) ∙ f)))
      (Each-delete (IsResult intents bids) id rs h)

-- The bids of an intent are written, and the results that name them stay right.
pub rewritten-results :
    (id : String) (new : List Bid) (intents : Map String IntentWithWindow)
    (bids : Map String (List Bid)) (rs : Map String MatchingResult)
    → ((r : MatchingResult) → NamesCheapest r (value_or [] (lookup id bids)) → NamesCheapest r new)
    → Each (IsResult intents bids) rs
    → Each (IsResult intents (insert id new bids)) rs
rewritten-results id new intents bids rs keep h k r f =
    let (e, m, n) = h k r f in
    (
      e,
      m,
      elim (Bool-cases (id == k)) [
        | inl y ↦
            subst (λ o. NamesCheapest r (value_or [] o)) (sym (written id k new bids y))
              (keep r (
                subst (λ j. NamesCheapest r (value_or [] (lookup j bids))) (sym (beq→eq id k y)) n))
        | inr d ↦ subst (λ o. NamesCheapest r (value_or [] o)) (sym (untouched id k new bids d)) n
      ],
    )

-- An assignment gets its agent and becomes pending.
pub stored-IsPending :
    (id agent : String) (p : PendingAssignment) (agents : Map String String)
    (ps : Map String PendingAssignment)
    → IsIssued id p.assignment
    → Each (IsPending agents) ps
    → Each (IsPending (insert id agent agents)) (insert id p ps)
stored-IsPending id agent p agents ps i h =
    Each-insert (IsPending (insert id agent agents)) id p ps
      (i, ap is_some (lookup-insert_self id agent agents))
      (λ k q f.
        let (j, a) = h k q f in
        (
          j,
          elim (Bool-cases (id == k)) [
            | inl y ↦ ap is_some (written id k agent agents y)
            | inr d ↦ ap is_some (untouched id k agent agents d) ∙ a
          ],
        ))

-- Neither an agent nor a pending assignment is left.
pub cleaned-IsPending :
    (id : String) (agents : Map String String) (ps : Map String PendingAssignment)
    → Each (IsPending agents) ps
    → Each (IsPending (delete id agents)) (delete id ps)
cleaned-IsPending id agents ps h k q f = elim (Bool-cases (id == k)) [
  | inl y ↦ absurd (ground (arith, sym (deleted id k ps y) ∙ f))
  | inr d ↦
      let (j, a) = h k q (sym (undeleted id k ps d) ∙ f) in
      (j, ap is_some (undeleted id k agents d) ∙ a)
]
