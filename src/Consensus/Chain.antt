-- ===== src/Consensus/Chain.antt =====
-- internal/consensus/chain_manager.go: the chain of checkpoints that a node keeps. Headers are the
-- protobuf ones; `sha256` is SHA-256. The storage interface is a record of operations on a store `S`:
-- saving answers the new store and whether it went well. A header that `AddCheckpoint` completes is
-- the one that it stores; the caller's header is the same object.
pub mod Convert
pub mod Linked
pub mod Segment
use subnet.Prelude.{
  ℕ, zero, suc, ◌+◌, ◌⊎◌, inl, inr, Bool, ◌&&◌, Option, none, some, List, [], ◌∷◌, ◌++◌, map, ltb,
  leb, nat_eq, ◌==◌, if◌then◌else◌, is_empty,
}
use mathlib.Core.Option
use subnet.Map.{Map, lookup, insert, has}
use subnet.Bytes.{Bytes, bytes_Eq, hex_encode, hex_decode}
use subnet.Crypto.Hasher.{
  CommitmentRoots, CheckpointSignatures, CheckpointHeader, compute_hash_for_verification,
}
use subnet.Validators.{u64}
use subnet.Checkpoint.{Header, Roots, Signatures}

pub record Store (S : Type 0) : Type 0 where
  pub save_header : S → Header → S × Bool
  pub get_header : S → ℕ → Option Header

pub record Chain (S : Type 0) : Type 0 where
  pub checkpoints : Map ℕ CheckpointHeader
  pub latest : Option CheckpointHeader
  pub store : Option S

pub data ChainError : Type 0 where
  invalid_epoch : ℕ → ℕ → ChainError
  invalid_parent : Bytes → Bytes → ChainError
  not_persisted : ChainError

-- The roots that `convertToTypesHeader` leaves empty.
abbrev no_roots : Roots
no_roots = record {
  agent_root = [];
  agent_service_root = [];
  rank_root = [];
  metrics_root = [];
  data_usage_root = [];
  state_root = [];
  event_root = [];
  cross_subnet_root = [];
}

abbrev pub roots_to_types : Option CommitmentRoots → Roots
roots_to_types none = no_roots
roots_to_types (some r) = record no_roots {
  agent_root = hex_encode r.agent_root;
  state_root = hex_encode r.state_root;
  event_root = hex_encode r.event_root;
}

abbrev pub signatures_to_types : CheckpointSignatures → Signatures
signatures_to_types s = record {
  ecdsa_signatures = s.ecdsa_signatures;
  signers_bitmap = s.signers_bitmap;
  signature_count = 0;
  total_weight = s.total_weight;
}

unfoldable pub convert_to_types_header : CheckpointHeader → Header
convert_to_types_header h = record {
  subnet_id = h.subnet_id;
  epoch = h.epoch;
  parent_cp_hash = hex_encode h.parent_cp_hash;
  timestamp = h.timestamp;
  version = 0;
  params_hash = [];
  roots = roots_to_types h.roots;
  validator_set_id = [];
  aux_hash = [];
  slot_epoch = 0;
  slot = 0;
  assignments_root = [];
  validation_commitment = [];
  policy_root = [];
  signatures = Option.map signatures_to_types h.signatures;
}

abbrev pub roots_from_types : Roots → Option CommitmentRoots
roots_from_types r =
    if is_empty r.state_root && (is_empty r.agent_root && is_empty r.event_root)
    then none
    else some (record {
      agent_root = hex_decode r.agent_root;
      agent_service_root = [];
      rank_root = [];
      metrics_root = [];
      data_usage_root = [];
      state_root = hex_decode r.state_root;
      event_root = hex_decode r.event_root;
      cross_subnet_root = [];
    })

abbrev pub signatures_from_types : Signatures → CheckpointSignatures
signatures_from_types s = record {
  ecdsa_signatures = s.ecdsa_signatures;
  signers_bitmap = s.signers_bitmap;
  signature_count = 0;
  total_weight = s.total_weight;
}

unfoldable pub convert_from_types_header : Header → CheckpointHeader
convert_from_types_header h = record {
  subnet_id = h.subnet_id;
  epoch = h.epoch;
  parent_cp_hash = hex_decode h.parent_cp_hash;
  timestamp = h.timestamp;
  version = 0;
  params_hash = [];
  roots = roots_from_types h.roots;
  da_commitments = [];
  validator_set_id = [];
  stats = [];
  aux_hash = [];
  epoch_slot = none;
  assignments_root = [];
  validation_commitment = [];
  policy_root = [];
  signatures = Option.map signatures_from_types h.signatures;
}

-- What the loop of `GetChainSegment` appends for one epoch.
abbrev pub cached : Option CheckpointHeader → List CheckpointHeader
cached none = []
cached (some cp) = cp ∷ []

module _ {S : Type 0} where
  unfoldable pub new_chain : Chain S
  new_chain = record { checkpoints = []; latest = none; store = none }

  unfoldable pub set_store : Chain S → Option S → Chain S
  set_store c store = record c { store = store }

  unfoldable get_height : Chain S → ℕ
  get_height c = elim c.latest [ none ↦ 0 | some h ↦ h.epoch ]

  unfoldable has_checkpoint : Chain S → ℕ → Bool
  has_checkpoint c epoch = has epoch c.checkpoints

  -- The loop of `GetChainSegment`, with the wrapping `epoch++` of a uint64; `none` means that the
  -- fuel ran out.
  unfoldable pub segment_from :
      ℕ → Chain S → ℕ → ℕ → List CheckpointHeader → Option (List CheckpointHeader)
  segment_from zero c epoch end_epoch headers = none
  segment_from (suc fuel) c epoch end_epoch headers =
      let found = headers ++ cached (lookup epoch c.checkpoints) in
      let rest = segment_from fuel c (u64 (epoch + 1)) end_epoch found in
      if leb epoch end_epoch then rest else some headers

  -- A range that ends before it starts is an error, `inl` with its bounds.
  unfoldable pub get_chain_segment : ℕ → Chain S → ℕ → ℕ → (ℕ × ℕ) ⊎ Option (List CheckpointHeader)
  get_chain_segment fuel c start_epoch end_epoch =
      if ltb end_epoch start_epoch
      then inl (start_epoch, end_epoch)
      else inr (segment_from fuel c start_epoch end_epoch [])

  unfoldable get_checkpoint : Store S → Chain S → ℕ → Chain S × Option CheckpointHeader
  get_checkpoint backend c epoch = elim (lookup epoch c.checkpoints) [
    | some cp ↦ (c, some cp)
    | none ↦ elim c.store [
      | none ↦ (c, none)
      | some s ↦ elim (backend.get_header s epoch) [
        | none ↦ (c, none)
        | some h ↦
            let cp = convert_from_types_header h in
            (record c { checkpoints = insert epoch cp c.checkpoints }, some cp)
      ]
    ]
  ]

-- The end of `AddCheckpoint`: the header is stored in memory, then persisted.
unfoldable pub store_checkpoint :
    {S : Type 0} → Store S → Chain S → CheckpointHeader → Chain S × Option ChainError
store_checkpoint backend c h =
    let c' = record c { checkpoints = insert h.epoch h c.checkpoints; latest = some h } in
    elim c.store [
      | none ↦ (c', none)
      | some s ↦
          let (s', ok) = backend.save_header s (convert_to_types_header h) in
          (record c' { store = some s' }, if ok then none else some not_persisted)
    ]

module _ (sha256 : Bytes → Bytes) where
  -- The header that follows `latest`, with its parent hash set where it was empty.
  unfoldable pub follow : CheckpointHeader → CheckpointHeader → ChainError ⊎ CheckpointHeader
  follow latest h =
      let latest_hash = compute_hash_for_verification sha256 latest in
      if leb h.epoch latest.epoch
      then inl (invalid_epoch latest.epoch h.epoch)
      else if is_empty h.parent_cp_hash
      then inr (record h { parent_cp_hash = latest_hash })
      else if h.parent_cp_hash == latest_hash
      then inr h
      else inl (invalid_parent latest_hash h.parent_cp_hash)

module _ (sha256 : Bytes → Bytes) {S : Type 0} (backend : Store S) where
  -- The new chain and the error, `none` for nil.
  unfoldable pub add_checkpoint : Chain S → CheckpointHeader → Chain S × Option ChainError
  unfolding follow
  add_checkpoint c h = elim c.latest [
    | none ↦ store_checkpoint backend c h
    | some latest ↦ elim (follow sha256 latest h) [
      | inl e ↦ (c, some e)
      | inr h' ↦ store_checkpoint backend c h'
    ]
  ]
