-- ===== src/Bitmap/Count.antt =====
-- The number of set bits, and the bitmap of a sequence of signers.
use Prim.Native.Nat.{bit_or}
use subnet.Prelude.{
  ℕ, zero, suc, ◌+◌, ◌-◌, ◌/◌, ◌%◌, ◌^◌, ◌<◌, ◌≡◌, refl, ap, ◌∙◌, inl, inr, Bool, false, ◌||◌, List,
  [], ◌∷◌, ◌++◌, arith, leb, ◌==◌, nat_eq, if◌then◌else◌, Bool-cases, length, set, get_or,
  replicate,
}
use subnet.Bitmap.{grow, or_byte, set_bit, bit_is_set, count_byte, count_bits_from, count_bits}
use subnet.Bitmap.Bytes.{test, ones, count_byte-ones, ones-or}
use subnet.Bitmap.Laws.{
  replicate-IsBytes, IsBytes, grown, get_or-lt, get_or-grown, length-grown, set_bit-IsBytes,
  bit_is_set-set_bit, bit_is_set-test,
}

abbrev tally : List ℕ → ℕ
tally [] = 0
tally (b ∷ bs) = ones b + tally bs

count_bits_from-tally : (c : ℕ) (bs : List ℕ) → IsBytes bs → count_bits_from c bs ≡ c + tally bs
unfolding count_bits_from
count_bits_from-tally c [] h = omega arith
count_bits_from-tally c (b ∷ bs) h =
    omega (arith, count_byte-ones b h.0, count_bits_from-tally (c + count_byte b) bs h.1)

tally-append : (xs ys : List ℕ) → tally (xs ++ ys) ≡ tally xs + tally ys
tally-append [] ys = omega arith
tally-append (x ∷ xs) ys = omega (arith, tally-append xs ys)

ones-zero : ones 0 ≡ 0
unfolding ones
ones-zero = refl

tally-replicate : (n : ℕ) → tally (replicate n 0) ≡ 0
tally-replicate zero = refl
tally-replicate (suc n) = omega (arith, ones-zero, tally-replicate n)

tally-grown : (bs : List ℕ) (k : ℕ) → tally (grown bs k) ≡ tally bs
unfolding grow
tally-grown bs k = elim (Bool-cases (leb (length bs) k)) [
  | inl y ↦ rw y (
      omega (
        arith,
        tally-append bs (replicate (k + 1 - length bs) 0),
        tally-replicate (k + 1 - length bs),
      ))
  | inr n ↦ rw n refl
]

tally-set :
    (bs : List ℕ) (k v : ℕ)
    → k < length bs
    → tally (set bs k v) + ones (get_or bs k 0) ≡ tally bs + ones v
tally-set [] k v h = elim h [ ]
tally-set (b ∷ bs) zero v h = omega arith
tally-set (b ∷ bs) (suc k) v h = omega (arith, tally-set bs k v (omega arith))

tally-set_bit :
    (bs : List ℕ) (i : ℕ)
    → IsBytes bs
    → tally (set_bit bs i)
      ≡ (if test (get_or bs (i / 8) 0) (i % 8) then tally bs else suc (tally bs))
unfolding set_bit or_byte
tally-set_bit bs i h =
    let g = grown bs (i / 8) in
    let written =
      tally-set g (i / 8) (bit_or (get_or g (i / 8) 0) (2 ^ (i % 8))) (length-grown bs (i / 8)) in
    let gain = ones-or (get_or bs (i / 8) 0) (i % 8) (get_or-lt bs (i / 8) h) (omega arith) in
    let here = get_or-grown bs (i / 8) (i / 8) in
    elim (Bool-cases (test (get_or bs (i / 8) 0) (i % 8))) [
      | inl y ↦ rw y (
          omega (
            arith,
            tally-grown bs (i / 8),
            written,
            ap ones here,
            ap (λ b. ones (bit_or b (2 ^ (i % 8)))) here,
            rw y at gain,
          ))
      | inr n ↦ rw n (
          omega (
            arith,
            tally-grown bs (i / 8),
            written,
            ap ones here,
            ap (λ b. ones (bit_or b (2 ^ (i % 8)))) here,
            rw n at gain,
          ))
    ]

count_bits-tally : (bs : List ℕ) → IsBytes bs → count_bits bs ≡ tally bs
unfolding count_bits
count_bits-tally bs h = count_bits_from-tally 0 bs h ∙ omega arith

pub count_bits-zeros : (n : ℕ) → count_bits (replicate n 0) ≡ 0
count_bits-zeros n = count_bits-tally _ (replicate-IsBytes n) ∙ tally-replicate n

-- The number of set bits grows by one exactly when the bit was clear.
pub count_bits-set_bit :
    (bs : List ℕ) (i : ℕ)
    → IsBytes bs
    → count_bits (set_bit bs i) ≡ (if bit_is_set bs i then count_bits bs else suc (count_bits bs))
count_bits-set_bit bs i h =
    rw
      (
        count_bits-tally (set_bit bs i) (set_bit-IsBytes bs i h),
        count_bits-tally bs h,
        bit_is_set-test bs i,
      )
      (tally-set_bit bs i h)

-- The bitmap after the signatures of a list of signers, the last signer first.
abbrev pub bitmap_of : List ℕ → List ℕ
bitmap_of [] = []
bitmap_of (i ∷ is) = set_bit (bitmap_of is) i

abbrev pub member : ℕ → List ℕ → Bool
member i [] = false
member i (j ∷ js) = j == i || member i js

-- The number of different signers.
abbrev pub distinct : List ℕ → ℕ
distinct [] = 0
distinct (i ∷ is) = if member i is then distinct is else suc (distinct is)

bitmap_of-IsBytes : (is : List ℕ) → IsBytes (bitmap_of is)
bitmap_of-IsBytes [] = tt
bitmap_of-IsBytes (i ∷ is) = set_bit-IsBytes (bitmap_of is) i (bitmap_of-IsBytes is)

bit_is_set-nil : (i : ℕ) → bit_is_set [] i ≡ false
unfolding bit_is_set
bit_is_set-nil i = ground arith

-- A bit of the bitmap is set exactly for the validators that signed.
pub bit_is_set-bitmap_of : (is : List ℕ) (i : ℕ) → bit_is_set (bitmap_of is) i ≡ member i is
bit_is_set-bitmap_of [] i = bit_is_set-nil i
bit_is_set-bitmap_of (j ∷ is) i =
    rw (bit_is_set-set_bit (bitmap_of is) j i (bitmap_of-IsBytes is), bit_is_set-bitmap_of is i)
      refl

-- The number of set bits is the number of different signers, however often each signs.
pub count_bits-bitmap_of : (is : List ℕ) → count_bits (bitmap_of is) ≡ distinct is
unfolding count_bits count_bits_from
count_bits-bitmap_of [] = refl
count_bits-bitmap_of (i ∷ is) =
    count_bits-set_bit (bitmap_of is) i (bitmap_of-IsBytes is)
    ∙ rw (bit_is_set-bitmap_of is i, count_bits-bitmap_of is) refl
