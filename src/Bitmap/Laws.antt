-- ===== src/Bitmap/Laws.antt =====
-- What setting a bit does to the bitmap: which bits are set, and how many.
use Prim.Native.Nat.{bit_and-bitwise, bit_or}
use native.Mathlib.Decide.{ℕ_discrete as dec_eq}
use subnet.Prelude.{
  ℕ, zero, suc, ◌+◌, ◌-◌, ◌/◌, ◌%◌, ◌^◌, ◌≤◌, ◌<◌, ◌≡◌, refl, sym, ap, ◌∙◌, ◌≢◌, inl, inr, false,
  ◌||◌, List, [], ◌∷◌, ◌++◌, arith, leb, leb→le, leb-false→lt, ◌==◌, nat_eq, if◌then◌else◌,
  Bool-cases, beq_refl, beq_ne, length, set, get_or, replicate, length-append, length-replicate,
  All, All-append,
}
use subnet.Bitmap.{grow, or_byte, set_bit, bit_is_set}
use subnet.Bitmap.Bytes.{test, test-or, or-byte}

-- Every entry of the slice is a byte.
abbrev pub IsBytes : List ℕ → Type 0
IsBytes = All (λ b. b < 256)

pub get_or-lt : (bs : List ℕ) (i : ℕ) → IsBytes bs → get_or bs i 0 < 256
get_or-lt [] i h = omega arith
get_or-lt (b ∷ bs) zero h = h.0
get_or-lt (b ∷ bs) (suc i) h = get_or-lt bs i h.1

pub replicate-IsBytes : (n : ℕ) → IsBytes (replicate n 0)
replicate-IsBytes zero = tt
replicate-IsBytes (suc n) = (omega arith, replicate-IsBytes n)

set-IsBytes : (bs : List ℕ) (i v : ℕ) → IsBytes bs → v < 256 → IsBytes (set bs i v)
set-IsBytes [] i v h lt = tt
set-IsBytes (b ∷ bs) zero v h lt = (lt, h.1)
set-IsBytes (b ∷ bs) (suc i) v h lt = (h.0, set-IsBytes bs i v h.1 lt)

get_or-set :
    (bs : List ℕ) (i j v : ℕ)
    → i < length bs
    → get_or (set bs i v) j 0 ≡ (if i == j then v else get_or bs j 0)
get_or-set [] i j v h = elim h [ ]
get_or-set (b ∷ bs) zero zero v h = refl
get_or-set (b ∷ bs) zero (suc j) v h = ground arith
get_or-set (b ∷ bs) (suc i) zero v h = ground arith
get_or-set (b ∷ bs) (suc i) (suc j) v h = get_or-set bs i j v (omega arith) ∙ ground arith

get_or-append_zero : (bs : List ℕ) (n j : ℕ) → get_or (bs ++ replicate n 0) j 0 ≡ get_or bs j 0
get_or-append_zero [] zero j = refl
get_or-append_zero [] (suc n) zero = refl
get_or-append_zero [] (suc n) (suc j) = get_or-append_zero [] n j
get_or-append_zero (b ∷ bs) n zero = refl
get_or-append_zero (b ∷ bs) n (suc j) = get_or-append_zero bs n j

get_or-beyond : (bs : List ℕ) (j : ℕ) → length bs ≤ j → get_or bs j 0 ≡ 0
get_or-beyond [] j h = refl
get_or-beyond (b ∷ bs) zero h = absurd (omega arith)
get_or-beyond (b ∷ bs) (suc j) h = get_or-beyond bs j (omega arith)

-- A bit is read from the byte at its place, or is clear.
pub bit_is_set-test : (bs : List ℕ) (i : ℕ) → bit_is_set bs i ≡ test (get_or bs (i / 8) 0) (i % 8)
unfolding bit_is_set
bit_is_set-test bs i = elim (Bool-cases (leb (length bs) (i / 8))) [
  | inl out ↦
      rw (out, get_or-beyond bs (i / 8) (leb→le _ _ out))
        (ground (arith, bit_and-bitwise 0 (2 ^ (i % 8))))
  | inr within ↦ rw within refl
]

-- The bitmap that `set_bit` writes into.
abbrev pub grown : List ℕ → ℕ → List ℕ
grown bs k = if leb (length bs) k then grow (k + 1) bs else bs

pub get_or-grown : (bs : List ℕ) (k j : ℕ) → get_or (grown bs k) j 0 ≡ get_or bs j 0
unfolding grow
get_or-grown bs k j = elim (Bool-cases (leb (length bs) k)) [
  | inl y ↦ rw y (get_or-append_zero bs (k + 1 - length bs) j)
  | inr n ↦ rw n refl
]

pub length-grown : (bs : List ℕ) (k : ℕ) → k < length (grown bs k)
unfolding grow
length-grown bs k = elim (Bool-cases (leb (length bs) k)) [
  | inl y ↦
      rw
        (
          y,
          length-append bs (replicate (k + 1 - length bs) 0),
          length-replicate (k + 1 - length bs) (let z : ℕ = 0 in z),
        )
        (omega (arith, leb→le _ _ y))
  | inr n ↦ rw n (leb-false→lt _ _ n)
]

grown-IsBytes : (bs : List ℕ) (k : ℕ) → IsBytes bs → IsBytes (grown bs k)
unfolding grow
grown-IsBytes bs k h = elim (Bool-cases (leb (length bs) k)) [
  | inl y ↦ rw y (All-append _ bs (replicate (k + 1 - length bs) 0) h (replicate-IsBytes _))
  | inr n ↦ rw n h
]

-- `SetBit` keeps the slice a slice of bytes.
pub set_bit-IsBytes : (bs : List ℕ) (i : ℕ) → IsBytes bs → IsBytes (set_bit bs i)
unfolding set_bit or_byte
set_bit-IsBytes bs i h = set-IsBytes (grown bs (i / 8)) (i / 8) _ (grown-IsBytes bs (i / 8) h) (
    or-byte _ (i % 8) (get_or-lt (grown bs (i / 8)) (i / 8) (grown-IsBytes bs (i / 8) h))
      (omega arith))

same_place : (i j : ℕ) → i / 8 ≡ j / 8 → (j % 8 == i % 8) ≡ (i == j)
same_place i j e = ground arith

other_place : (i j : ℕ) → i / 8 ≢ j / 8 → (i == j) ≡ false
other_place i j e = ground arith

test-written :
    (bs : List ℕ) (i j : ℕ)
    → IsBytes bs
    → test
        (if i / 8 == j / 8 then bit_or (get_or bs (i / 8) 0) (2 ^ (i % 8)) else get_or bs (j / 8) 0)
        (j % 8)
      ≡ (i == j || test (get_or bs (j / 8) 0) (j % 8))
test-written bs i j h = elim (dec_eq (i / 8) (j / 8)) [
  | yes e ↦
      rw (ap (λ (k : ℕ). get_or bs k 0) (sym e), e, beq_refl (j / 8))
        (test-or (get_or bs (j / 8) 0) (i % 8) (j % 8) (get_or-lt bs (j / 8) h) (omega arith)
            (omega arith)
          ∙ ap (λ b. b || test (get_or bs (j / 8) 0) (j % 8)) (same_place i j e))
  | no n ↦ rw (beq_ne (i / 8) (j / 8) n, other_place i j n) refl
]

-- After `SetBit` on a list of bytes the bit is set and every other bit is what it was, also where the
-- slice grew.
pub bit_is_set-set_bit :
    (bs : List ℕ) (i j : ℕ) → IsBytes bs → bit_is_set (set_bit bs i) j ≡ (i == j || bit_is_set bs j)
unfolding set_bit or_byte
bit_is_set-set_bit bs i j h =
    bit_is_set-test (set_bit bs i) j
    ∙ ap (λ b. test b (j % 8))
        (get_or-set (grown bs (i / 8)) (i / 8) (j / 8) _ (length-grown bs (i / 8))
          ∙ rw (get_or-grown bs (i / 8) (i / 8), get_or-grown bs (i / 8) (j / 8)) refl)
    ∙ test-written bs i j h
    ∙ ap (λ b. i == j || b) (sym (bit_is_set-test bs j))

test_zero : (k : ℕ) → test 0 k ≡ false
test_zero k = ground (arith, bit_and-bitwise 0 (2 ^ k))

-- No bit of a new bitmap is set.
pub bit_is_set-zeros : (n i : ℕ) → bit_is_set (replicate n 0) i ≡ false
bit_is_set-zeros n i =
    bit_is_set-test (replicate n 0) i
    ∙ ap (λ b. test b (i % 8)) (get_or-append_zero [] n (i / 8))
    ∙ test_zero (i % 8)
