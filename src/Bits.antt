-- ===== src/Bits.antt =====
-- Single bits of a word: `&`, `|`, `~` and `mask_bitset` of isa/riscv64/system/priv.c.
pub mod Mask
pub mod Pack
pub mod Trailing
pub mod Above
use Prim.Native.Nat.{digits, bit_and-bitwise, bit_or-bitwise}
use native.Mathlib.Nat.{add_comm, div-div-eq-div-mul, pow-succ'}
use nemu.Base.{ℕ, zero, suc, ◌+◌, ◌-◌, ◌*◌, ◌/◌, ◌%◌, ◌^◌, ◌≤◌, ◌<◌, min, max, bit_and, bit_or}
use nemu.Base.{◌≡◌, refl, sym, ◌∙◌, ap, arith}

-- Bit `i` of a word.
abbrev pub test_bit : ℕ → ℕ → ℕ
test_bit w zero = w % 2
test_bit w (suc i) = test_bit (w / 2) i

pub test_bit-lt : (w i : ℕ) → test_bit w i < 2
test_bit-lt w zero = omega arith
test_bit-lt w (suc i) = test_bit-lt (w / 2) i

pub test_bit-zero : (i : ℕ) → test_bit 0 i ≡ 0
test_bit-zero zero = refl
test_bit-zero (suc i) = test_bit-zero i

-- The bit as the field of width one that starts there.
pub test_bit-eq-field : (w i : ℕ) → test_bit w i ≡ w / 2 ^ i % 2
test_bit-eq-field w zero = omega arith
test_bit-eq-field w (suc i) =
    rw (pow-succ' 2 i)
      (test_bit-eq-field (w / 2) i ∙ ap (λ (t : ℕ). t % 2) (div-div-eq-div-mul w 2 (2 ^ i)))

-- A digit-wise operation of the native numbers acts bit by bit.
module _ (z : ℕ → ℕ) (f : ℕ → ℕ → ℕ) (f_lt : (x y : ℕ) → x < 2 → y < 2 → f x y < 2)
    (z_bit : (b i : ℕ) → test_bit (z b) i ≡ f 0 (test_bit b i)) where
  test_bit-digits :
      (n a b i : ℕ) → a ≤ n → test_bit (digits z f n a b) i ≡ f (test_bit a i) (test_bit b i)
  test_bit-digits zero zero b i h = rw (test_bit-zero i) (z_bit b i)
  test_bit-digits zero (suc a) b i h = absurd (omega arith)
  test_bit-digits (suc n) zero b i h = rw (test_bit-zero i) (z_bit b i)
  test_bit-digits (suc n) (suc a) b zero h =
      omega (arith, f_lt (suc a % 2) (b % 2) (omega arith) (omega arith))
  test_bit-digits (suc n) (suc a) b (suc i) h =
      ap (λ (t : ℕ). test_bit t i) halved ∙ test_bit-digits n (suc a / 2) (b / 2) i (omega arith)
    where
      halved :
          (digits z f n (suc a / 2) (b / 2) * 2 + f (suc a % 2) (b % 2)) / 2
          ≡ digits z f n (suc a / 2) (b / 2)
      halved = omega (arith, f_lt (suc a % 2) (b % 2) (omega arith) (omega arith))

pub test_bit-bit_and : (a b i : ℕ) → test_bit (bit_and a b) i ≡ min (test_bit a i) (test_bit b i)
test_bit-bit_and a b i =
    ap (λ (t : ℕ). test_bit t i) (bit_and-bitwise a b)
    ∙ test_bit-digits (λ _. 0) min (λ x y p q. omega arith) (λ b i. test_bit-zero i ∙ omega arith) a
        a b i (omega arith)

pub test_bit-bit_or : (a b i : ℕ) → test_bit (bit_or a b) i ≡ max (test_bit a i) (test_bit b i)
test_bit-bit_or a b i =
    ap (λ (t : ℕ). test_bit t i) (bit_or-bitwise a b)
    ∙ test_bit-digits (λ b. b) max (λ x y p q. omega arith) (λ b i. omega arith) a a b i
        (omega arith)

-- Two words below `2 ^ k` that agree on their `k` low bits are equal.
pub eq_of_test_bit :
    (k a b : ℕ) → a < 2 ^ k → b < 2 ^ k → ((i : ℕ) → i < k → test_bit a i ≡ test_bit b i) → a ≡ b
eq_of_test_bit zero a b ha hb h = omega arith
eq_of_test_bit (suc k) a b ha hb h = omega (
  arith,
  h 0 (omega arith),
  eq_of_test_bit k (a / 2) (b / 2) (omega (arith, pow-succ' 2 k)) (omega (arith, pow-succ' 2 k))
      (λ i p. h (suc i) (omega arith)),
)

lt-two_pow : (n : ℕ) → n < 2 ^ n
lt-two_pow zero = omega arith
lt-two_pow (suc n) = omega (arith, lt-two_pow n, pow-succ' 2 n)

-- Two numbers with the same bits are equal.
pub eq_of_bits : (a b : ℕ) → ((i : ℕ) → test_bit a i ≡ test_bit b i) → a ≡ b
eq_of_bits a b h =
    eq_of_test_bit (a + b) a b (bound a b) (rw (add_comm a b) (bound b a)) (λ i _. h i)
  where
    bound : (a b : ℕ) → a < 2 ^ (a + b)
    bound a b = omega (arith, lt-two_pow (a + b))

-- The lowest digit of `&`, by itself.
pub bit_and_step : (v m : ℕ) → bit_and v m ≡ bit_and (v / 2) (m / 2) * 2 + min (v % 2) (m % 2)
bit_and_step v m = eq_of_bits _ _ same
  where
    same :
        (i : ℕ)
        → test_bit (bit_and v m) i ≡ test_bit (bit_and (v / 2) (m / 2) * 2 + min (v % 2) (m % 2)) i
    same zero = omega (arith, test_bit-bit_and v m 0)
    same (suc i) =
        test_bit-bit_and v m (suc i)
        ∙ sym (test_bit-bit_and (v / 2) (m / 2) i)
        ∙ ap (λ (t : ℕ). test_bit t i) (omega arith)

pub bit_and-zero : (a : ℕ) → bit_and a 0 ≡ 0
bit_and-zero a = eq_of_bits _ _ (λ i. test_bit-bit_and a 0 i ∙ omega (arith, test_bit-zero i))
