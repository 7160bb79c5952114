-- ===== src/Examples.antt =====
-- Runs of the theorems on small data: a set of three validators, a few headers, a book of bids.
-- The hash of the examples gives its argument back.
mod Sets
mod Rounds
mod Hashes
mod Chains
mod Market
mod Replicas
mod Leases
mod Tasks
mod Sorting
mod Servers
mod Nodes
use subnet.Prelude.{ℕ, String, none, some, [], ◌∷◌}
use subnet.Validators.{Validator, ValidatorSet}
use subnet.Bytes.{Bytes}
use subnet.Crypto.Hasher.{CheckpointHeader, CommitmentRoots, CheckpointSignatures}

abbrev named : String → ℕ → Validator
named id weight = record { id = id; pub_key = []; weight = weight; endpoint = "" }

abbrev pub three : ValidatorSet
three = record {
  validators = named "a" 1 ∷ named "b" 1 ∷ named "c" 1 ∷ [];
  min_validators = 1;
  threshold_num = 2;
  threshold_denom = 3;
  effective_epoch = 0;
}

-- One validator whose weight, twice, is 2^64.
abbrev pub heavy : ValidatorSet
heavy = record three { validators = named "a" 9223372036854775808 ∷ [] }

abbrev pub sha : Bytes → Bytes
sha bs = bs

abbrev roots_of : ℕ → CommitmentRoots
roots_of n = record {
  agent_root = n ∷ [];
  agent_service_root = [];
  rank_root = 9 ∷ [];
  metrics_root = [];
  data_usage_root = [];
  state_root = 2 ∷ [];
  event_root = [];
  cross_subnet_root = [];
}

abbrev pub two_signatures : CheckpointSignatures
two_signatures = record {
  ecdsa_signatures = (7 ∷ []) ∷ (5 ∷ []) ∷ [];
  signers_bitmap = some (3 ∷ []);
  signature_count = 2;
  total_weight = 2;
}

-- The header of an epoch, with no parent hash.
abbrev pub header_of : ℕ → CheckpointHeader
header_of epoch = record {
  subnet_id = 115 ∷ [];
  epoch = epoch;
  parent_cp_hash = [];
  timestamp = 100;
  version = 1;
  params_hash = [];
  roots = some (roots_of 1);
  da_commitments = [];
  validator_set_id = [];
  stats = [];
  aux_hash = [];
  epoch_slot = none;
  assignments_root = [];
  validation_commitment = [];
  policy_root = [];
  signatures = some two_signatures;
}
