-- ===== src/Consensus/Chain/Convert.antt =====
-- A header that goes to storage and back.
use subnet.Prelude.{◌≡◌, refl, ap, ◌∙◌, false, ◌&&◌, Option, none, some, [], ◌∷◌, nat_eq, is_empty}
use mathlib.Core.Option
use subnet.Bytes.{Bytes, hex_encode}
use subnet.Bytes.Hex.{hex_decode-hex_encode}
use subnet.Bitmap.Laws.{IsBytes}
use subnet.Crypto.Hasher.{
  CommitmentRoots, CheckpointSignatures, CheckpointHeader, merkle_roots, signing_bytes,
  signature_bytes, compute_hash, compute_hash_for_verification,
}
use subnet.Consensus.Chain.{
  convert_to_types_header, convert_from_types_header, roots_to_types, roots_from_types,
  signatures_to_types, signatures_from_types,
}

-- Roots that storage can tell from none: bytes, and not all of them empty.
abbrev RootsKept : Option CommitmentRoots → Type 0
RootsKept none = Unit {0}
RootsKept (some r) =
    IsBytes r.agent_root
    × IsBytes r.state_root
    × IsBytes r.event_root
    × (is_empty r.state_root && (is_empty r.agent_root && is_empty r.event_root) ≡ false)

is_empty-hex_encode : (bs : Bytes) → is_empty (hex_encode bs) ≡ is_empty bs
unfolding hex_encode
is_empty-hex_encode [] = refl
is_empty-hex_encode (b ∷ bs) = refl

-- The roots and signatures that come back from storage.
abbrev kept_roots : CommitmentRoots → CommitmentRoots
kept_roots r = record {
  agent_root = r.agent_root;
  agent_service_root = [];
  rank_root = [];
  metrics_root = [];
  data_usage_root = [];
  state_root = r.state_root;
  event_root = r.event_root;
  cross_subnet_root = [];
}

abbrev kept_signatures : CheckpointSignatures → CheckpointSignatures
kept_signatures s = record s { signature_count = 0 }

-- A header with the fields that storage keeps, all others empty.
abbrev pub kept : CheckpointHeader → CheckpointHeader
kept h = record {
  subnet_id = h.subnet_id;
  epoch = h.epoch;
  parent_cp_hash = h.parent_cp_hash;
  timestamp = h.timestamp;
  version = 0;
  params_hash = [];
  roots = Option.map kept_roots h.roots;
  da_commitments = [];
  validator_set_id = [];
  stats = [];
  aux_hash = [];
  epoch_slot = none;
  assignments_root = [];
  validation_commitment = [];
  policy_root = [];
  signatures = Option.map kept_signatures h.signatures;
}

roots-back :
    (roots : Option CommitmentRoots)
    → RootsKept roots
    → roots_from_types (roots_to_types roots) ≡ Option.map kept_roots roots
unfolding hex_encode
roots-back none k = refl
roots-back (some r) k =
    rw
      (
        is_empty-hex_encode r.state_root,
        is_empty-hex_encode r.agent_root,
        is_empty-hex_encode r.event_root,
        k.3,
        hex_decode-hex_encode r.agent_root k.0,
        hex_decode-hex_encode r.state_root k.1,
        hex_decode-hex_encode r.event_root k.2,
      )
      refl

signatures-back :
    (sigs : Option CheckpointSignatures)
    → Option.map signatures_from_types (Option.map signatures_to_types sigs)
      ≡ Option.map kept_signatures sigs
signatures-back none = refl
signatures-back (some s) = refl

convert-kept :
    (h : CheckpointHeader)
    → IsBytes h.parent_cp_hash
    → RootsKept h.roots
    → convert_from_types_header (convert_to_types_header h) ≡ kept h
unfolding convert_to_types_header convert_from_types_header
convert-kept h p k = λ i. record (kept h) {
  parent_cp_hash = hex_decode-hex_encode h.parent_cp_hash p i;
  roots = roots-back h.roots k i;
  signatures = signatures-back h.signatures i;
}

signed-kept :
    (roots : Option CommitmentRoots)
    → merkle_roots (Option.map kept_roots roots) ≡ merkle_roots roots
unfolding merkle_roots
signed-kept none = refl
signed-kept (some r) = refl

signatures-kept :
    (sigs : Option CheckpointSignatures)
    → signature_bytes (Option.map kept_signatures sigs) ≡ signature_bytes sigs
unfolding signature_bytes
signatures-kept none = refl
signatures-kept (some s) = refl

-- If its hashes are bytes and its state, agent and event roots are missing or not all empty, then
-- storage gives a header back with its subnet, epoch, parent hash and time, these three roots, and
-- its signatures with their bitmap and weight, all other fields being empty, and the hash that the
-- next header names is the one that the header had before.
pub convert_round_trip :
    (sha256 : Bytes → Bytes) (h : CheckpointHeader)
    → IsBytes h.parent_cp_hash
    → RootsKept h.roots
    → (convert_from_types_header (convert_to_types_header h) ≡ kept h)
      × (compute_hash_for_verification sha256
            (convert_from_types_header (convert_to_types_header h))
          ≡ compute_hash_for_verification sha256 h)
unfolding compute_hash_for_verification compute_hash signing_bytes
convert_round_trip sha256 h p k = (
  convert-kept h p k,
  ap (compute_hash_for_verification sha256) (convert-kept h p k)
      ∙ rw (signed-kept h.roots, signatures-kept h.signatures) refl,
)
