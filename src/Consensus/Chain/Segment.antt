-- ===== src/Consensus/Chain/Segment.antt =====
-- The loop of `GetChainSegment`: what it collects, and when it does not end.
use subnet.Prelude.{
  ℕ, zero, suc, ◌+◌, ◌-◌, ◌^◌, ◌≤◌, ◌<◌, ◌≡◌, refl, ap, ◌∙◌, inr, false, none, some, List, [], ◌++◌,
  arith, ltb, leb, le→leb, nat_eq,
}
use mathlib.Core.List.{append_assoc, append-nil}
use native.Mathlib.Nat.{mod-eq_of_lt}
use subnet.Map.{lookup}
use subnet.Validators.{u64}
use subnet.Crypto.Hasher.{CheckpointHeader}
use subnet.Consensus.Chain.{Chain, cached, segment_from, get_chain_segment}

module _ {S : Type 0} (c : Chain S) where
  -- The checkpoints in memory for `n` epochs from `epoch` on, in order.
  abbrev pub in_range : ℕ → ℕ → List CheckpointHeader
  in_range epoch zero = []
  in_range epoch (suc n) = cached (lookup epoch c.checkpoints) ++ in_range (epoch + 1) n

  segment_from-in_range :
      (n epoch end_epoch : ℕ) (headers : List CheckpointHeader)
      → epoch + n ≡ suc end_epoch
      → suc end_epoch < 2 ^ 64
      → segment_from (suc n) c epoch end_epoch headers ≡ some (headers ++ in_range epoch n)
  unfolding segment_from
  segment_from-in_range zero epoch end_epoch headers e h =
      let past : leb epoch end_epoch ≡ false = ground arith in rw (past, append-nil headers) refl
  segment_from-in_range (suc n) epoch end_epoch headers e h =
      let inside = le→leb epoch end_epoch (omega arith) in
      let here = cached (lookup epoch c.checkpoints) in
      let next = mod-eq_of_lt {n = epoch + 1} {m = 2 ^ 64} (omega arith) in
      rw (inside, next)
        (segment_from-in_range n (epoch + 1) end_epoch (headers ++ here) (omega arith) h
          ∙ ap some (append_assoc headers here (in_range (epoch + 1) n)))

  never :
      (fuel epoch : ℕ) (headers : List CheckpointHeader)
      → epoch < 2 ^ 64
      → segment_from fuel c epoch (2 ^ 64 - 1) headers ≡ none
  unfolding segment_from
  never zero epoch headers h = refl
  never (suc fuel) epoch headers h =
      rw (le→leb epoch (2 ^ 64 - 1) (omega arith)) (never fuel (u64 (epoch + 1)) _ (omega arith))

  -- Of the ranges that start no later than they end, one that ends below the largest epoch is collected within one round for each epoch and one
  -- more: the checkpoints in memory, in the order of their epochs. A range that ends at the largest
  -- epoch of a uint64 is never left, however many rounds are run: the counter wraps.
  pub get_chain_segment_lem :
      (start end_epoch : ℕ)
      → start ≤ end_epoch
      → end_epoch < 2 ^ 64
      → (end_epoch + 1 < 2 ^ 64
          → get_chain_segment (suc (suc end_epoch - start)) c start end_epoch
            ≡ inr (some (in_range start (suc end_epoch - start))))
        × (end_epoch ≡ 2 ^ 64 - 1
            → (fuel : ℕ) → get_chain_segment fuel c start end_epoch ≡ inr none)
  unfolding get_chain_segment
  get_chain_segment_lem start end_epoch le lt =
      let ok : ltb end_epoch start ≡ false = ground arith in
      (
        λ h. rw ok (
            ap inr (
              segment_from-in_range (suc end_epoch - start) start end_epoch [] (omega arith)
                (omega arith))),
        λ e fuel. rw (ok, e) (ap inr (never fuel start [] (omega arith))),
      )
