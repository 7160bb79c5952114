-- ===== src/Consensus/Chain/Linked.antt =====
-- The checkpoints that a node has accepted form a hash chain.
use subnet.Prelude.{
  ℕ, ◌<◌, ◌≡◌, refl, sym, subst, ◌∙◌, ◌⊎◌, inl, inr, Option, none, some, List, [], ◌∷◌, arith,
  nat_eq, Option-cases, All, All-mono,
}
use subnet.Map.{Map, lookup, insert, lookup-insert_self, lookup-insert_ne}
use subnet.Bytes.{Bytes, bytes_Eq, bytes_beq_iff}
use subnet.Crypto.Hasher.{CheckpointHeader, compute_hash_for_verification}
use subnet.Consensus.Chain.{
  Chain, Store, ChainError, new_chain, set_store, store_checkpoint, follow, add_checkpoint,
}

module _ (sha256 : Bytes → Bytes) where
  -- Newest first: epochs fall, and each header holds the hash of the one behind it.
  abbrev IsLinked : List CheckpointHeader → Type 0
  IsLinked [] = Unit {0}
  IsLinked (h ∷ []) = Unit {0}
  IsLinked (h ∷ p ∷ headers) =
      (p.epoch < h.epoch)
      × (h.parent_cp_hash ≡ compute_hash_for_verification sha256 p)
      × IsLinked (p ∷ headers)

  abbrev newest : List CheckpointHeader → Option CheckpointHeader
  newest [] = none
  newest (h ∷ headers) = some h

  linked-below :
      (h : CheckpointHeader) (headers : List CheckpointHeader)
      → IsLinked (h ∷ headers)
      → All (λ x. x.epoch < h.epoch) headers
  linked-below h [] l = tt
  linked-below h (p ∷ headers) l =
      (l.0, All-mono _ _ headers (λ x q. omega (arith, q, l.0)) (linked-below p headers l.2))

  -- An accepted header is newer than the latest and holds its hash; only the hash may be new.
  follow-links :
      (latest h h' : CheckpointHeader)
      → follow sha256 latest h ≡ inr h'
      → (latest.epoch < h'.epoch)
        × (h'.parent_cp_hash ≡ compute_hash_for_verification sha256 latest)
        × (h' ≡ record h { parent_cp_hash = compute_hash_for_verification sha256 latest })
  unfolding follow
  follow-links latest h h' e =
      let hashes = bytes_beq_iff h.parent_cp_hash (compute_hash_for_verification sha256 latest) in
      ground (arith, hashes)

  abbrev accepted_after : Option CheckpointHeader → CheckpointHeader → Option CheckpointHeader
  accepted_after none h = some h
  accepted_after (some latest) h = elim (follow sha256 latest h) [ inl e ↦ none | inr h' ↦ some h' ]

  abbrev push : Option CheckpointHeader → List CheckpointHeader → List CheckpointHeader
  push none headers = headers
  push (some h) headers = h ∷ headers

module _ (sha256 : Bytes → Bytes) {S : Type 0} (backend : Store S) where
  -- The calls one after another, with the accepted headers, newest first.
  abbrev pub add_all :
      Chain S → List CheckpointHeader → List CheckpointHeader → Chain S × List CheckpointHeader
  add_all c history [] = (c, history)
  add_all c history (h ∷ hs) =
      add_all (add_checkpoint sha256 backend c h).0
        (push sha256 (accepted_after sha256 c.latest h) history) hs

  -- The accepted headers are linked, the newest is the latest, and each is found by its epoch.
  pub record Inv (c : Chain S) (history : List CheckpointHeader) : Type 0 where
    pub linked : IsLinked sha256 history
    pub top : c.latest ≡ newest sha256 history
    pub kept : All (λ x. lookup x.epoch c.checkpoints ≡ some x) history

  store_checkpoint_fields :
      (c : Chain S) (h : CheckpointHeader)
      → ((store_checkpoint backend c h).0.latest ≡ some h)
        × ((store_checkpoint backend c h).0.checkpoints ≡ insert h.epoch h c.checkpoints)
  unfolding store_checkpoint
  store_checkpoint_fields c h = elim (Option-cases c.store) [
    | inl e ↦ rw (e, store_checkpoint) (refl, refl)
    | inr (s, e) ↦ rw (e, store_checkpoint) (refl, refl)
  ]

  kept-insert :
      (h : CheckpointHeader) (m : Map ℕ CheckpointHeader) (history : List CheckpointHeader)
      → All (λ x. x.epoch < h.epoch) history
      → All (λ x. lookup x.epoch m ≡ some x) history
      → All (λ x. lookup x.epoch (insert h.epoch h m) ≡ some x) history
  kept-insert h m [] b k = tt
  kept-insert h m (x ∷ history) b k = (
    lookup-insert_ne h.epoch x.epoch h m (λ e. omega (arith, b.0)) ∙ k.0,
    kept-insert h m history b.1 k.1,
  )

  store_checkpoint-Inv :
      (c : Chain S) (history : List CheckpointHeader) (h : CheckpointHeader)
      → Inv c history
      → IsLinked sha256 (h ∷ history)
      → Inv (store_checkpoint backend c h).0 (h ∷ history)
  store_checkpoint-Inv c history h v l =
      let f = store_checkpoint_fields c h in
      record {
        linked = l;
        top = f.0;
        kept =
            subst (λ m. All (λ x. lookup x.epoch m ≡ some x) (h ∷ history)) (sym f.1)
              (
                lookup-insert_self h.epoch h c.checkpoints,
                kept-insert h c.checkpoints history (linked-below sha256 h history l) v.kept,
              );
      }

  add_checkpoint_after :
      (c : Chain S) (p : CheckpointHeader) (history : List CheckpointHeader) (h : CheckpointHeader)
      → Inv c (p ∷ history)
      → (r : ChainError ⊎ CheckpointHeader) → follow sha256 p h ≡ r
      → Inv
          (add_checkpoint sha256 backend c h).0
          (push sha256 (accepted_after sha256 c.latest h) (p ∷ history))
  unfolding add_checkpoint
  add_checkpoint_after c p history h v (inl err) e =
      let top : c.latest ≡ some p = v.top in rw (top, accepted_after, e, add_checkpoint) v
  add_checkpoint_after c p history h v (inr h') e =
      let top : c.latest ≡ some p = v.top in
      let links = follow-links sha256 p h h' e in
      rw (top, accepted_after, e, add_checkpoint)
        (store_checkpoint-Inv c (p ∷ history) h' v (links.0, links.1, v.linked))

  add_checkpoint-Inv :
      (c : Chain S) (history : List CheckpointHeader) (h : CheckpointHeader)
      → Inv c history
      → Inv
          (add_checkpoint sha256 backend c h).0
          (push sha256 (accepted_after sha256 c.latest h) history)
  unfolding add_checkpoint
  add_checkpoint-Inv c [] h v = rw (v.top, add_checkpoint) (store_checkpoint-Inv c [] h v tt)
  add_checkpoint-Inv c (p ∷ history) h v =
      add_checkpoint_after c p history h v (follow sha256 p h) refl

  add_all-Inv :
      (c : Chain S) (history hs : List CheckpointHeader)
      → Inv c history
      → Inv (add_all c history hs).0 (add_all c history hs).1
  add_all-Inv c history [] v = v
  add_all-Inv c history (h ∷ hs) v =
      add_all-Inv (add_checkpoint sha256 backend c h).0
        (push sha256 (accepted_after sha256 c.latest h) history) hs
        (add_checkpoint-Inv c history h v)

  -- Whatever headers are offered to a new chain, and whether or not storage works, those accepted
  -- form a chain: their epochs rise, each holds the hash of the one before it, the newest is the
  -- latest, and each is still found under its epoch.
  pub add_all-new_chain :
      (store : Option S) (hs : List CheckpointHeader)
      → Inv
          (add_all (set_store new_chain store) [] hs).0
          (add_all (set_store new_chain store) [] hs).1
  unfolding new_chain set_store
  add_all-new_chain store hs = add_all-Inv _ [] hs (record { linked = tt; top = refl; kept = tt })
