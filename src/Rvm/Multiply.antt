-- ===== src/Rvm/Multiply.antt =====
-- The upper halves of products.
use native.Mathlib.Nat.{mul-le-mul_right}
use nemu.Base.{ℕ, ◌+◌, ◌-◌, ◌*◌, ◌/◌, ◌%◌, ◌^◌, ◌<◌, ◌≤◌, ◌≡◌, arith, if◌then◌else◌}
use nemu.Base.{Bool-cases, inl, inr}
use nemu.Bits.{bit_and-zero}
use nemu.Bits.Pack.{bit_and_ones}
use nemu.Rvm.{mul, mulhsu, is_neg, c_sar63, c_mulu_hi, c_mulu_lo, c_sub}

-- The product of a signed `a` and an unsigned `b`, as 128 bits in two's complement.
pub signed_product : ℕ → ℕ → ℕ
signed_product a b = if is_neg a then (a * b + (2 ^ 128 - 2 ^ 64 * b)) % 2 ^ 128 else a * b

product-lt : (a b : ℕ) → a < 2 ^ 64 → b < 2 ^ 64 → a * b < 2 ^ 128
product-lt a b h g = let le : a ≤ 2 ^ 64 - 1 = omega arith in omega (arith, mul-le-mul_right b le)

-- The correction of the upper half, for any product.
corrected :
    (p b : ℕ)
    → p < 2 ^ 128
    → b < 2 ^ 64
    → (p / 2 ^ 64 + (2 ^ 64 - b)) % 2 ^ 64 * 2 ^ 64 + p % 2 ^ 64
      ≡ (p + (2 ^ 128 - 2 ^ 64 * b)) % 2 ^ 128
corrected p b h g = omega arith

uncorrected : (p : ℕ) → p < 2 ^ 128 → (p / 2 ^ 64 + 2 ^ 64) % 2 ^ 64 * 2 ^ 64 + p % 2 ^ 64 ≡ p
uncorrected p h = omega arith

-- For words of 64 bits, mulhsu and mul are the halves of the product of a signed and an unsigned
-- word.
pub mulhsu-mul :
    (a b : ℕ) → a < 2 ^ 64 → b < 2 ^ 64 → mulhsu a b * 2 ^ 64 + mul a b ≡ signed_product a b
unfolding mulhsu mul c_sar63 c_mulu_hi c_mulu_lo c_sub signed_product
mulhsu-mul a b h g = elim (Bool-cases (is_neg a)) [
  | inl n ↦ rw (n, bit_and_ones 64 b g) (corrected (a * b) b (product-lt a b h g) g)
  | inr p ↦ rw (p, bit_and-zero b) (uncorrected (a * b) (product-lt a b h g))
]
