-- ===== src/Bytes/Hex.antt =====
-- Hexadecimal text, there and back.
use subnet.Prelude.{ℕ, ◌/◌, ◌%◌, ◌<◌, ◌≡◌, refl, some, [], ◌∷◌, arith, nat_eq}
use subnet.Bytes.{Bytes, hex_digit, hex_encode, hex_value, hex_decode}
use subnet.Bitmap.Laws.{IsBytes}

hex_value-hex_digit : (d : ℕ) → d < 16 → hex_value (hex_digit d) ≡ some d
unfolding hex_value hex_digit
hex_value-hex_digit d h = ground arith

-- Decoding an encoded byte slice gives the slice back.
pub hex_decode-hex_encode : (bs : Bytes) → IsBytes bs → hex_decode (hex_encode bs) ≡ bs
unfolding hex_encode hex_decode
hex_decode-hex_encode [] h = refl
hex_decode-hex_encode (b ∷ bs) h =
    rw
      (
        hex_value-hex_digit (b / 16) (omega arith),
        hex_value-hex_digit (b % 16) (omega arith),
        hex_decode-hex_encode bs h.1,
      )
      (ground arith)
