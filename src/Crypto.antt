-- ===== src/Crypto.antt =====
-- The hashes of internal/crypto/checkpoint.go.
pub mod Merkle
pub mod Hasher
