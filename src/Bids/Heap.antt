-- ===== src/Bids/Heap.antt =====
-- How the search for an agent's bid answers after a write to the heap.
use subnet.Prelude.{
  ℕ, String, ◌≡◌, refl, sym, ap, ap₂, subst, ◌∙◌, ◌≢◌, ◌⊎◌, inl, inr, false, Option, none, some,
  List, [], ◌∷◌, ◌++◌, eq_iff, arith, nat_beq_iff, ◌==◌, nat_eq, text_Eq, if◌then◌else◌, Bool-cases,
  Option-cases, some_eq, beq_refl, beq_ne, beq→eq, All,
}
use subnet.Map.{Map, lookup, insert, lookup-insert_self, lookup-insert_ne}
use subnet.Bids.{Bid, find_bid}

pub find_here :
    (heap : Map ℕ Bid) (agent : String) (x : ℕ) (rs : List ℕ) (bid : Bid)
    → lookup x heap ≡ some bid
    → bid.agent_id ≡ agent
    → find_bid heap agent (x ∷ rs) ≡ some (x, bid)
unfolding find_bid
find_here heap agent x rs bid e a = rw (e, find_bid, a, beq_refl agent) refl

-- No bid of the agent at this place.
abbrev Skips : Map ℕ Bid → String → ℕ → Type 0
Skips heap agent x = (bid : Bid) → lookup x heap ≡ some bid → bid.agent_id ≢ agent

pub find_next :
    (heap : Map ℕ Bid) (agent : String) (x : ℕ) (rs : List ℕ)
    → Skips heap agent x
    → find_bid heap agent (x ∷ rs) ≡ find_bid heap agent rs
unfolding find_bid
find_next heap agent x rs s = elim (Option-cases (lookup x heap)) [
  | inl e ↦ rw (e, find_bid) refl
  | inr (bid, e) ↦ rw (e, find_bid, beq_ne bid.agent_id agent (s bid e)) refl
]

abbrev agent_of : Bid → String
agent_of bid = bid.agent_id

off : (bid : Bid) (agent : String) → (bid.agent_id == agent) ≡ false → bid.agent_id ≢ agent
off bid agent f e = ground (arith, eq_iff bid.agent_id agent)

pub Skips-at :
    (heap : Map ℕ Bid) (agent : String) (x : ℕ) (bid : Bid)
    → lookup x heap ≡ some bid
    → bid.agent_id ≢ agent
    → Skips heap agent x
Skips-at heap agent x bid e n other y a = n (ap agent_of (some_eq (sym e ∙ y)) ∙ a)

find_congr :
    (heap heap' : Map ℕ Bid) (agent : String) (x : ℕ) (rs : List ℕ)
    → lookup x heap' ≡ lookup x heap
    → find_bid heap' agent rs ≡ find_bid heap agent rs
    → find_bid heap' agent (x ∷ rs) ≡ find_bid heap agent (x ∷ rs)
unfolding find_bid
find_congr heap heap' agent x rs p q =
    ap₂
      (λ (o : Option Bid) (rest : Option (ℕ × Bid)). elim o [
        | none ↦ rest
        | some bid ↦ if bid.agent_id == agent then some (x, bid) else rest
      ])
      p q

pub found_eq :
    (x r : ℕ) (a b : Bid)
    → ◌≡◌ {A = Option (ℕ × Bid)} (some (x, a)) (some (r, b))
    → (x ≡ r) × (a ≡ b)
found_eq x r a b e = let p = some_eq e in (ap (λ (q : ℕ × Bid). q.0) p, ap (λ (q : ℕ × Bid). q.1) p)

pub find_cases :
    (heap : Map ℕ Bid) (agent : String) (x : ℕ)
    → ((bid : Bid) × (lookup x heap ≡ some bid) × (bid.agent_id ≡ agent)) ⊎ Skips heap agent x
find_cases heap agent x = elim (Option-cases (lookup x heap)) [
  | inl n ↦ inr (λ bid e. absurd (ground (arith, n, e)))
  | inr (bid, y) ↦ elim (Bool-cases (bid.agent_id == agent)) [
    | inl t ↦ inl (bid, y, beq→eq bid.agent_id agent t)
    | inr f ↦ inr (λ other e a. off bid agent f (ap agent_of (some_eq (sym y ∙ e)) ∙ a))
  ]
]

-- A found bid lies in the heap and is the agent's.
pub find_bid-found :
    (heap : Map ℕ Bid) (agent : String) (rs : List ℕ) (r : ℕ) (bid : Bid)
    → find_bid heap agent rs ≡ some (r, bid)
    → (lookup r heap ≡ some bid) × (bid.agent_id ≡ agent)
find_bid-found heap agent [] r bid e = absurd (unfold find_bid in ground (arith, e))
find_bid-found heap agent (x ∷ rs) r bid e = elim (find_cases heap agent x) [
  | inl (b, y, a) ↦
      let (p, q) = found_eq x r b bid (sym (find_here heap agent x rs b y a) ∙ e) in
      (
        sym (ap (λ (z : ℕ). lookup z heap) p) ∙ y ∙ ap (λ (z : Bid). some z) q,
        sym (ap agent_of q) ∙ a,
      )
  | inr s ↦ find_bid-found heap agent rs r bid (sym (find_next heap agent x rs s) ∙ e)
]

-- A write that keeps the agent of a place is not seen by the other agents.
pub find_bid-other :
    (heap : Map ℕ Bid) (agent : String) (r : ℕ) (old new : Bid) (rs : List ℕ)
    → lookup r heap ≡ some old
    → old.agent_id ≢ agent
    → new.agent_id ≢ agent
    → find_bid (insert r new heap) agent rs ≡ find_bid heap agent rs
find_bid-other heap agent r old new [] e o n = unfold find_bid in refl
find_bid-other heap agent r old new (x ∷ rs) e o n =
    let rest = find_bid-other heap agent r old new rs e o n in
    elim (Bool-cases (r == x)) [
      | inl t ↦
          let p = beq→eq r x t in
          let s = subst (Skips heap agent) p (Skips-at heap agent r old e o) in
          let s' =
            subst (Skips (insert r new heap) agent) p
              (Skips-at (insert r new heap) agent r new (lookup-insert_self r new heap) n) in
          find_next (insert r new heap) agent x rs s' ∙ rest ∙ sym (find_next heap agent x rs s)
      | inr f ↦
          find_congr heap (insert r new heap) agent x rs
            (lookup-insert_ne r x new heap (λ p. absurd (ground (arith, f, nat_beq_iff r x, p))))
            rest
    ]

-- The agent of a written place finds the new bid there.
pub find_bid-same :
    (heap : Map ℕ Bid) (agent : String) (r : ℕ) (old new : Bid) (rs : List ℕ)
    → find_bid heap agent rs ≡ some (r, old)
    → new.agent_id ≡ agent
    → find_bid (insert r new heap) agent rs ≡ some (r, new)
find_bid-same heap agent r old new [] e n = absurd (unfold find_bid in ground (arith, e))
find_bid-same heap agent r old new (x ∷ rs) e n = elim (find_cases heap agent x) [
  | inl (b, y, a) ↦
      let (p, q) = found_eq x r b old (sym (find_here heap agent x rs b y a) ∙ e) in
      find_here (insert r new heap) agent x rs new
        (ap (λ (z : ℕ). lookup z (insert r new heap)) p ∙ lookup-insert_self r new heap) n
      ∙ ap (λ (z : ℕ). some (z, new)) p
  | inr s ↦
      let tail = sym (find_next heap agent x rs s) ∙ e in
      let (y, a) = find_bid-found heap agent rs r old tail in
      let off_x = λ (p : r ≡ x). s old (sym (ap (λ (z : ℕ). lookup z heap) p) ∙ y) a in
      let q = lookup-insert_ne r x new heap off_x in
      find_next (insert r new heap) agent x rs (λ b z. s b (sym q ∙ z))
      ∙ find_bid-same heap agent r old new rs tail n
]

-- A write to a place that is not listed is not seen.
pub find_bid-fresh :
    (heap : Map ℕ Bid) (agent : String) (r : ℕ) (bid : Bid) (rs : List ℕ)
    → All (λ x. r ≢ x) rs
    → find_bid (insert r bid heap) agent rs ≡ find_bid heap agent rs
find_bid-fresh heap agent r bid [] h = unfold find_bid in refl
find_bid-fresh heap agent r bid (x ∷ rs) h =
    find_congr heap (insert r bid heap) agent x rs (lookup-insert_ne r x bid heap h.0)
      (find_bid-fresh heap agent r bid rs h.1)

-- A new reference at the end is found when no earlier one is.
pub find_bid-append :
    (heap : Map ℕ Bid) (agent : String) (rs : List ℕ) (r : ℕ)
    → find_bid heap agent rs ≡ none
    → find_bid heap agent (rs ++ (r ∷ [])) ≡ find_bid heap agent (r ∷ [])
unfolding find_bid
find_bid-append heap agent [] r e = refl
find_bid-append heap agent (x ∷ rs) r e = ground (arith, find_bid-append heap agent rs r)

pub find_bid-append_found :
    (heap : Map ℕ Bid) (agent : String) (rs : List ℕ) (r : ℕ) (found : ℕ × Bid)
    → find_bid heap agent rs ≡ some found
    → find_bid heap agent (rs ++ (r ∷ [])) ≡ some found
unfolding find_bid
find_bid-append_found heap agent [] r found e = absurd (ground (arith, e))
find_bid-append_found heap agent (x ∷ rs) r found e =
    ground (arith, find_bid-append_found heap agent rs r found)
