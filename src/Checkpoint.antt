-- ===== src/Checkpoint.antt =====
-- `types.CheckpointHeader` of internal/types/types.go with its canonical hash. Texts are their bytes.
-- The fields that no code of this library reads are left out (the DA commitments and the stats).
use subnet.Prelude.{ℕ, Option, List, [], ◌∷◌, ◌++◌, nat_eq}
use subnet.Bytes.{Bytes, hex_encode}
use subnet.Crypto.Hasher.{put_uint32, put_uint64}

pub record Roots : Type 0 where
  pub agent_root : Bytes
  pub agent_service_root : Bytes
  pub rank_root : Bytes
  pub metrics_root : Bytes
  pub data_usage_root : Bytes
  pub state_root : Bytes
  pub event_root : Bytes
  pub cross_subnet_root : Bytes

pub record Signatures : Type 0 where
  pub ecdsa_signatures : List Bytes
  pub signers_bitmap : Option Bytes
  pub signature_count : ℕ
  pub total_weight : ℕ

pub record Header : Type 0 where
  pub subnet_id : Bytes
  pub epoch : ℕ
  pub parent_cp_hash : Bytes
  pub timestamp : ℕ
  pub version : ℕ
  pub params_hash : Bytes
  pub roots : Roots
  pub validator_set_id : Bytes
  pub aux_hash : Bytes
  pub slot_epoch : ℕ
  pub slot : ℕ
  pub assignments_root : Bytes
  pub validation_commitment : Bytes
  pub policy_root : Bytes
  pub signatures : Option Signatures

-- "checkpoint:v1|"
abbrev domain : Bytes
domain = 99 ∷ 104 ∷ 101 ∷ 99 ∷ 107 ∷ 112 ∷ 111 ∷ 105 ∷ 110 ∷ 116 ∷ 58 ∷ 118 ∷ 49 ∷ 124 ∷ []

-- Each text behind a bar.
unfoldable barred : List Bytes → Bytes
barred [] = []
barred (text ∷ rest) = 124 ∷ text ++ barred rest

unfoldable pub canonical_bytes : Header → Bytes
unfolding barred
canonical_bytes h =
    domain
    ++ (put_uint32 h.version
        ++ (barred (h.subnet_id ∷ [])
            ++ (put_uint64 h.epoch
                ++ (barred (h.parent_cp_hash ∷ [])
                    ++ (put_uint64 h.timestamp
                        ++ (barred (
                              h.validator_set_id ∷ h.params_hash ∷ h.roots.agent_root
                              ∷ h.roots.agent_service_root ∷ h.roots.rank_root
                              ∷ h.roots.metrics_root ∷ h.roots.data_usage_root ∷ h.roots.state_root
                              ∷ h.roots.event_root ∷ h.roots.cross_subnet_root ∷ h.assignments_root
                              ∷ h.validation_commitment ∷ h.policy_root ∷ h.aux_hash ∷ [])
                            ++ (put_uint64 h.slot_epoch ++ put_uint64 h.slot)))))))

module _ (sha256 : Bytes → Bytes) where
  unfoldable canonical_hash : Header → Bytes
  canonical_hash h = sha256 (canonical_bytes h)

  unfoldable pub canonical_hash_hex : Header → Bytes
  unfolding canonical_hash
  canonical_hash_hex h = hex_encode (canonical_hash h)
