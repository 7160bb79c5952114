-- ===== src/Crypto/Hasher.antt =====
-- `CheckpointHasher` of internal/crypto/checkpoint.go: the bytes that are hashed for signing and for
-- linking checkpoints. SHA-256 is the parameter `sha256`; its input is the bytes written. An `int64`
-- timestamp is not negative, so that its bytes are those of the number.
pub mod Encoding
use subnet.Prelude.{
  ℕ, zero, suc, ◌/◌, ◌%◌, Option, none, some, List, [], ◌∷◌, ◌++◌, nat_eq, ◌==◌, if◌then◌else◌,
  length, replicate,
}
use subnet.Bytes.{Bytes, sort_bytes}

pub record CommitmentRoots : Type 0 where
  pub agent_root : Bytes
  pub agent_service_root : Bytes
  pub rank_root : Bytes
  pub metrics_root : Bytes
  pub data_usage_root : Bytes
  pub state_root : Bytes
  pub event_root : Bytes
  pub cross_subnet_root : Bytes

-- `none` for a nil bitmap.
pub record CheckpointSignatures : Type 0 where
  pub ecdsa_signatures : List Bytes
  pub signers_bitmap : Option Bytes
  pub signature_count : ℕ
  pub total_weight : ℕ

pub record DaCommitment : Type 0 where
  pub kind : Bytes
  pub pointer : Bytes
  pub size_hint : ℕ
  pub segment_hashes : List Bytes
  pub expiry : ℕ

pub record EpochSlot : Type 0 where
  pub epoch : ℕ
  pub slot : ℕ

pub record CheckpointHeader : Type 0 where
  pub subnet_id : Bytes
  pub epoch : ℕ
  pub parent_cp_hash : Bytes
  pub timestamp : ℕ
  pub version : ℕ
  pub params_hash : Bytes
  pub roots : Option CommitmentRoots
  pub da_commitments : List DaCommitment
  pub validator_set_id : Bytes
  pub stats : Bytes
  pub aux_hash : Bytes
  pub epoch_slot : Option EpochSlot
  pub assignments_root : Bytes
  pub validation_commitment : Bytes
  pub policy_root : Bytes
  pub signatures : Option CheckpointSignatures

-- `binary.BigEndian`: the low `n` bytes of a number, the highest first.
unfoldable pub big_endian : ℕ → ℕ → Bytes
big_endian zero v = []
big_endian (suc n) v = big_endian n (v / 256) ++ (v % 256 ∷ [])

abbrev pub put_uint32 : ℕ → Bytes
put_uint32 v = big_endian 4 v

abbrev pub put_uint64 : ℕ → Bytes
put_uint64 v = big_endian 8 v

unfoldable pub length_prefixed : Bytes → Bytes
length_prefixed bs = put_uint32 (length bs) ++ bs

-- `writeFixedBytes`: zeros in place of bytes of another length.
unfoldable pub fixed_bytes : Bytes → ℕ → Bytes
fixed_bytes bs expected = if length bs == expected then bs else replicate expected 0

unfoldable pub merkle_roots : Option CommitmentRoots → Bytes
unfolding fixed_bytes
merkle_roots none = replicate 32 0 ++ (replicate 32 0 ++ replicate 32 0)
merkle_roots (some roots) =
    fixed_bytes roots.state_root 32
    ++ (fixed_bytes roots.agent_root 32 ++ fixed_bytes roots.event_root 32)

-- What `ComputeHash` writes.
unfoldable pub signing_bytes : CheckpointHeader → Bytes
unfolding length_prefixed fixed_bytes merkle_roots
signing_bytes h =
    put_uint32 1
    ++ (put_uint64 h.epoch
        ++ (length_prefixed h.subnet_id
            ++ (put_uint64 h.timestamp
                ++ (fixed_bytes h.parent_cp_hash 32 ++ merkle_roots h.roots))))

unfoldable pub bitmap_bytes : Option Bytes → Bytes
unfolding length_prefixed
bitmap_bytes none = []
bitmap_bytes (some bitmap) = length_prefixed bitmap

unfoldable pub concat : List Bytes → Bytes
concat [] = []
concat (bs ∷ rest) = bs ++ concat rest

-- `writeSignatures`: the count, the signatures in order, the bitmap.
unfoldable pub signature_bytes : Option CheckpointSignatures → Bytes
unfolding bitmap_bytes concat
signature_bytes none = []
signature_bytes (some sigs) =
    put_uint32 (length sigs.ecdsa_signatures)
    ++ (concat (sort_bytes sigs.ecdsa_signatures) ++ bitmap_bytes sigs.signers_bitmap)

module _ (sha256 : Bytes → Bytes) where
  unfoldable pub compute_hash : CheckpointHeader → Bytes
  compute_hash h = sha256 (signing_bytes h)

  unfoldable pub compute_hash_for_verification : CheckpointHeader → Bytes
  unfolding compute_hash
  compute_hash_for_verification h = sha256 (compute_hash h ++ signature_bytes h.signatures)

  -- `ComputeParentHash`; a nil parent has a nil hash.
  unfoldable compute_parent_hash : Option CheckpointHeader → Bytes
  compute_parent_hash none = []
  compute_parent_hash (some parent) = compute_hash_for_verification parent
