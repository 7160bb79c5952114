-- ===== src/Bitmap/Bytes.antt =====
-- Facts about one byte, checked at all 256 values.
use Prim.Native.Nat.{bit_and, bit_or}
use subnet.Prelude.{
  ℕ, zero, suc, ◌+◌, ◌^◌, ◌<◌, ◌≡◌, refl, Bool, true, false, not, ◌&&◌, ◌||◌, arith, ltb, ltb→lt,
  ◌==◌, nat_eq, if◌then◌else◌, beq→eq,
}
use subnet.Bitmap.{clear_lowest, count_byte}

-- A test that all numbers below the bound pass.
passes : ℕ → (ℕ → Bool) → Bool
passes zero test = true
passes (suc bound) test = test bound && passes bound test

passes-at : (test : ℕ → Bool) (bound k : ℕ) → k < bound → passes bound test ≡ true → test k ≡ true
unfolding passes
passes-at test zero k below all = absurd (omega (arith, below))
passes-at test (suc bound) k below all = ground (arith, passes-at test bound k)

-- The bit of a byte at a position below 8, as a truth value and as a number.
abbrev pub test : ℕ → ℕ → Bool
test b k = not (bit_and b (2 ^ k) == 0)

abbrev weigh : Bool → ℕ
weigh true = 1
weigh false = 0

-- How many of the eight bits are set.
unfoldable pub ones : ℕ → ℕ
ones b =
    weigh (test b 0)
    + weigh (test b 1)
    + weigh (test b 2)
    + weigh (test b 3)
    + weigh (test b 4)
    + weigh (test b 5)
    + weigh (test b 6)
    + weigh (test b 7)

abbrev beq_bool : Bool → Bool → Bool
beq_bool true b = b
beq_bool false b = not b

beq_bool→eq : (a b : Bool) → beq_bool a b ≡ true → a ≡ b
beq_bool→eq a b h = ground arith

abbrev counts : ℕ → Bool
counts b = (count_byte b == ones b) && ((clear_lowest 8 b 0).0 == 0)

count_table : passes 256 counts ≡ true
unfolding passes count_byte clear_lowest ones
count_table = refl

-- The loop over one byte ends within eight rounds, with the number of its bits.
pub count_byte-ones : (b : ℕ) → b < 256 → (count_byte b ≡ ones b) × ((clear_lowest 8 b 0).0 ≡ 0)
count_byte-ones b h = ground (arith, passes-at counts 256 b h count_table)

or_table :
    passes 256 (λ b.
      passes 8 (λ k. passes 8 (λ j. beq_bool (test (bit_or b (2 ^ k)) j) (j == k || test b j))))
    ≡ true
unfolding passes
or_table = refl

-- Setting bit `k` of a byte sets that bit and leaves the others.
pub test-or :
    (b k j : ℕ) → b < 256 → k < 8 → j < 8 → test (bit_or b (2 ^ k)) j ≡ (j == k || test b j)
test-or b k j hb hk hj =
    beq_bool→eq _ _ (passes-at _ 8 j hj (passes-at _ 8 k hk (passes-at _ 256 b hb or_table)))

range_table : passes 256 (λ b. passes 8 (λ k. ltb (bit_or b (2 ^ k)) 256)) ≡ true
unfolding passes
range_table = refl

pub or-byte : (b k : ℕ) → b < 256 → k < 8 → bit_or b (2 ^ k) < 256
or-byte b k hb hk = ltb→lt _ _ (passes-at _ 8 k hk (passes-at _ 256 b hb range_table))

abbrev gains : ℕ → ℕ → Bool
gains b k = ones (bit_or b (2 ^ k)) == (if test b k then ones b else suc (ones b))

gain_table : passes 256 (λ b. passes 8 (gains b)) ≡ true
unfolding passes ones
gain_table = refl

-- A newly set bit is one more.
pub ones-or :
    (b k : ℕ)
    → b < 256
    → k < 8
    → ones (bit_or b (2 ^ k)) ≡ (if test b k then ones b else suc (ones b))
ones-or b k hb hk = beq→eq _ _ (passes-at (gains b) 8 k hk (passes-at _ 256 b hb gain_table))
