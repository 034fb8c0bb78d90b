-- ===== src/Bits/Mask.antt =====
-- Masks: complement, `mask_bitset`, and masks of low bits.
use native.Mathlib.Nat.{pow-succ', one-le-pow}
use nemu.Base.{sym, ◌∙◌, ◌%◌, min}
use nemu.Bits.{test_bit-eq-field, test_bit, test_bit-lt, test_bit-bit_and, test_bit-bit_or}
use nemu.Base.{ℕ, zero, suc, ◌+◌, ◌-◌, ◌/◌, ◌^◌, ◌≤◌, ◌<◌, bit_and, bit_or}
use nemu.Base.{◌≡◌, arith, not64}

-- `mask_bitset(old, mask, new)`.
unfoldable pub mask_bitset : ℕ → ℕ → ℕ → ℕ
mask_bitset old mask new = bit_or (bit_and old (not64 mask)) (bit_and new mask)

test_bit-complement :
    (k m i : ℕ) → m < 2 ^ k → i < k → test_bit (2 ^ k - 1 - m) i + test_bit m i ≡ 1
test_bit-complement zero m i hm hi = absurd (omega arith)
test_bit-complement (suc k) m zero hm hi = omega (arith, pow-succ' 2 k, one-le-pow k 2)
test_bit-complement (suc k) m (suc i) hm hi =
    rw halved (test_bit-complement k (m / 2) i (omega (arith, pow-succ' 2 k)) (omega arith))
  where
    halved : (2 ^ suc k - 1 - m) / 2 ≡ 2 ^ k - 1 - m / 2
    halved = omega (arith, pow-succ' 2 k, one-le-pow k 2)

pub test_bit-not64 : (m i : ℕ) → m < 2 ^ 64 → i < 64 → test_bit (not64 m) i + test_bit m i ≡ 1
test_bit-not64 m i hm hi = test_bit-complement 64 m i hm hi

-- A bit inside the mask is the new one.
pub mask_bitset_inside :
    (old mask new i : ℕ)
    → mask < 2 ^ 64
    → i < 64
    → test_bit mask i ≡ 1
    → test_bit (mask_bitset old mask new) i ≡ test_bit new i
unfolding mask_bitset
mask_bitset_inside old mask new i hm hi h = omega (
  arith,
  test_bit-bit_or (bit_and old (not64 mask)) (bit_and new mask) i,
  test_bit-bit_and old (not64 mask) i,
  test_bit-bit_and new mask i,
  test_bit-not64 mask i hm hi,
  test_bit-lt new i,
)

-- A bit outside the mask is the old one.
pub mask_bitset_outside :
    (old mask new i : ℕ)
    → mask < 2 ^ 64
    → i < 64
    → test_bit mask i ≡ 0
    → test_bit (mask_bitset old mask new) i ≡ test_bit old i
unfolding mask_bitset
mask_bitset_outside old mask new i hm hi h = omega (
  arith,
  test_bit-bit_or (bit_and old (not64 mask)) (bit_and new mask) i,
  test_bit-bit_and old (not64 mask) i,
  test_bit-bit_and new mask i,
  test_bit-not64 mask i hm hi,
  test_bit-lt old i,
)

-- A bit that neither the value nor the mask has is absent from `value & mask`.
pub bit_and-le_left : (a b i : ℕ) → test_bit (bit_and a b) i ≤ test_bit a i
bit_and-le_left a b i = omega (arith, test_bit-bit_and a b i)

pub bit_and-le_right : (a b i : ℕ) → test_bit (bit_and a b) i ≤ test_bit b i
bit_and-le_right a b i = omega (arith, test_bit-bit_and a b i)

min_of_zero : (m x : ℕ) → m ≡ 0 → min m x ≡ 0
min_of_zero m x h = omega arith

min_of_one : (m x : ℕ) → m ≡ 1 → x < 2 → min m x ≡ x
min_of_one m x h k = omega arith

-- A bit that the mask lacks is clear in the masked value, and one that it has is the value's.
pub bit_and-clear : (mask v i : ℕ) → test_bit mask i ≡ 0 → bit_and mask v / 2 ^ i % 2 ≡ 0
bit_and-clear mask v i h =
    sym (test_bit-eq-field (bit_and mask v) i)
    ∙ test_bit-bit_and mask v i
    ∙ min_of_zero (test_bit mask i) (test_bit v i) h

pub bit_and-kept : (mask v i : ℕ) → test_bit mask i ≡ 1 → bit_and mask v / 2 ^ i % 2 ≡ v / 2 ^ i % 2
bit_and-kept mask v i h =
    sym (test_bit-eq-field (bit_and mask v) i)
    ∙ test_bit-bit_and mask v i
    ∙ min_of_one (test_bit mask i) (test_bit v i) h (test_bit-lt v i)
    ∙ test_bit-eq-field v i
