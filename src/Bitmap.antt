-- ===== src/Bitmap.antt =====
-- The signer bitmap of internal/consensus/checkpoint.go: a byte slice, one bit for each validator.
-- Indices are those of validators, so not negative.
pub mod Bytes
pub mod Laws
pub mod Count
use Prim.Native.Nat.{bit_and, bit_or}
use subnet.Prelude.{
  ℕ, zero, suc, ◌+◌, ◌-◌, ◌/◌, ◌%◌, ◌^◌, Bool, false, not, List, [], ◌∷◌, ◌++◌, leb, ◌==◌, nat_eq,
  if◌then◌else◌, length, set, get_or, replicate,
}

-- `make([]byte, byteIdx+1)` and `copy`: the bitmap with zero bytes behind it, `n` bytes long.
unfoldable pub grow : ℕ → List ℕ → List ℕ
grow n bitmap = bitmap ++ replicate (n - length bitmap) 0

-- `bitmap[byteIdx] |= 1 << bitIdx`, in bounds.
unfoldable pub or_byte : List ℕ → ℕ → ℕ → List ℕ
or_byte bitmap byte_idx bit_idx =
    set bitmap byte_idx (bit_or (get_or bitmap byte_idx 0) (2 ^ bit_idx))

unfoldable pub set_bit : List ℕ → ℕ → List ℕ
set_bit bitmap idx =
    let byte_idx = idx / 8 in
    let grown = if leb (length bitmap) byte_idx then grow (byte_idx + 1) bitmap else bitmap in
    or_byte grown byte_idx (idx % 8)

unfoldable pub bit_is_set : List ℕ → ℕ → Bool
bit_is_set bitmap idx =
    let byte_idx = idx / 8 in
    if leb (length bitmap) byte_idx
    then false
    else not (bit_and (get_or bitmap byte_idx 0) (2 ^ (idx % 8)) == 0)

-- `for v != 0 { v &= v - 1; c++ }` for at most `fuel` rounds: the final `v` and `c`.
unfoldable pub clear_lowest : ℕ → ℕ → ℕ → ℕ × ℕ
clear_lowest zero v c = (v, c)
clear_lowest (suc fuel) v c =
    let rest = clear_lowest fuel (bit_and v (v - 1)) (c + 1) in if v == 0 then (v, c) else rest

-- Eight rounds: a byte has no more bits.
unfoldable pub count_byte : ℕ → ℕ
count_byte b = (clear_lowest 8 b 0).1

unfoldable pub count_bits_from : ℕ → List ℕ → ℕ
count_bits_from c [] = c
count_bits_from c (b ∷ bs) = count_bits_from (c + count_byte b) bs

unfoldable pub count_bits : List ℕ → ℕ
count_bits bitmap = count_bits_from 0 bitmap
