-- ===== src/Bytes.antt =====
-- Go byte slices and strings as lists of bytes: equality, the order of `<` on strings, sorting and
-- hexadecimal text.
pub mod Order
pub mod Hex
use subnet.Prelude.{
  ℕ, ◌+◌, ◌-◌, ◌*◌, ◌/◌, ◌%◌, ◌≡◌, refl, ◌↔◌, Bool, true, false, ◌&&◌, ◌||◌, Option, none, some,
  List, [], ◌∷◌, arith, ltb, leb, ◌==◌, nat_eq, if◌then◌else◌, Eq,
}

abbrev pub Bytes : Type 0
Bytes = List ℕ

abbrev bytes_beq : Bytes → Bytes → Bool
bytes_beq [] [] = true
bytes_beq (x ∷ xs) (y ∷ ys) = x == y && bytes_beq xs ys
bytes_beq _ _ = false

pub bytes_beq_iff : (xs ys : Bytes) → (bytes_beq xs ys ≡ true) ↔ (xs ≡ ys)
bytes_beq_iff [] [] = (λ _. refl, λ _. refl)
bytes_beq_iff [] (y ∷ ys) = (λ h. cc, λ h. cc)
bytes_beq_iff (x ∷ xs) [] = (λ h. cc, λ h. cc)
bytes_beq_iff (x ∷ xs) (y ∷ ys) =
    let ih = bytes_beq_iff xs ys in (λ h. ground (arith, ih), λ h. ground (arith, ih))

instance abbrev pub bytes_Eq : Eq Bytes
bytes_Eq = record { beq = bytes_beq; beq_iff = bytes_beq_iff }

-- `a <= b` on strings.
abbrev pub bytes_leb : Bytes → Bytes → Bool
bytes_leb [] ys = true
bytes_leb (x ∷ xs) [] = false
bytes_leb (x ∷ xs) (y ∷ ys) = ltb x y || (x == y && bytes_leb xs ys)

unfoldable pub insert_sorted : Bytes → List Bytes → List Bytes
insert_sorted x [] = x ∷ []
insert_sorted x (y ∷ ys) = if bytes_leb x y then x ∷ y ∷ ys else y ∷ insert_sorted x ys

-- `sort.Strings`, and `sort.Slice` by `string(a) < string(b)`: equal strings cannot be told apart,
-- so the result does not depend on the algorithm.
unfoldable pub sort_bytes : List Bytes → List Bytes
sort_bytes [] = []
sort_bytes (x ∷ xs) = insert_sorted x (sort_bytes xs)

-- The digit of a number below 16, in lower case.
unfoldable pub hex_digit : ℕ → ℕ
hex_digit d = if ltb d 10 then d + 48 else d + 87

-- `hex.EncodeToString`
unfoldable pub hex_encode : Bytes → Bytes
hex_encode [] = []
hex_encode (b ∷ bs) = hex_digit (b / 16) ∷ hex_digit (b % 16) ∷ hex_encode bs

-- The value of a digit, of either case.
unfoldable pub hex_value : ℕ → Option ℕ
hex_value c =
    if leb 48 c && leb c 57
    then some (c - 48)
    else if leb 97 c && leb c 102
    then some (c - 87)
    else if leb 65 c && leb c 70
    then some (c - 55)
    else none

abbrev hex_pair : Option ℕ → Option ℕ → Bytes → Bytes
hex_pair (some hi) (some lo) rest = (16 * hi + lo) ∷ rest
hex_pair _ _ rest = []

-- `bs, _ := hex.DecodeString(s)`: what was decoded before an error.
unfoldable pub hex_decode : Bytes → Bytes
hex_decode [] = []
hex_decode (c ∷ []) = []
hex_decode (c ∷ d ∷ cs) = let rest = hex_decode cs in hex_pair (hex_value c) (hex_value d) rest
