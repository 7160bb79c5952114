-- ===== src/Crypto/Hasher/Encoding.antt =====
-- What the signed bytes determine.
use subnet.Prelude.{
  ℕ, zero, suc, ◌/◌, ◌^◌, ◌<◌, ◌≡◌, refl, ap₂, ◌∙◌, some, List, ◌++◌, arith, nat_eq, length,
}
use mathlib.Core.List.{Permᴰ}
use subnet.Bytes.{Bytes}
use subnet.Bytes.Order.{sort_bytes-perm}
use subnet.Crypto.Hasher.{
  CheckpointSignatures, CheckpointHeader, put_uint32, fixed_bytes, merkle_roots, signing_bytes,
  bitmap_bytes, concat, signature_bytes, compute_hash_for_verification,
}

-- The number has no more than `n` bytes.
abbrev Fits : ℕ → ℕ → Type 0
Fits zero v = v ≡ 0
Fits (suc n) v = Fits n (v / 256)

-- The header's numbers fit their Go types, and the name is shorter than 2^32 bytes.
pub record Fitting (h : CheckpointHeader) : Type 0 where
  pub epoch : h.epoch < 2 ^ 64
  pub timestamp : h.timestamp < 2 ^ 64
  pub name : length h.subnet_id < 2 ^ 32

-- The parts of two headers that are signed agree.
abbrev pub IsSameSigned : CheckpointHeader → CheckpointHeader → Type 0
IsSameSigned h h' =
    (h.epoch ≡ h'.epoch)
    × (h.subnet_id ≡ h'.subnet_id)
    × (h.timestamp ≡ h'.timestamp)
    × (fixed_bytes h.parent_cp_hash 32 ≡ fixed_bytes h'.parent_cp_hash 32)
    × (merkle_roots h.roots ≡ merkle_roots h'.roots)

length-perm : {xs ys : List Bytes} → Permᴰ xs ys → length xs ≡ length ys
length-perm Permᴰ.nil = refl
length-perm (Permᴰ.cons e p) = omega (arith, length-perm p)
length-perm (Permᴰ.swap e f) = refl
length-perm (Permᴰ.trans p q) = length-perm p ∙ length-perm q

-- The order in which the signatures were collected does not show in the hash of a checkpoint.
pub verification_hash-order :
    (sha256 : Bytes → Bytes) (h : CheckpointHeader) (sigs : CheckpointSignatures)
    (other : List Bytes)
    → Permᴰ sigs.ecdsa_signatures other
    → compute_hash_for_verification sha256 (record h { signatures = some sigs })
      ≡ compute_hash_for_verification sha256
          (record h { signatures = some (record sigs { ecdsa_signatures = other }) })
unfolding compute_hash_for_verification signature_bytes signing_bytes
verification_hash-order sha256 h sigs other p =
    ap₂
      (λ n l. sha256 (
        sha256 (signing_bytes h)
        ++ (put_uint32 n ++ (concat l ++ bitmap_bytes sigs.signers_bitmap))))
      (length-perm p) (sort_bytes-perm _ _ p)
