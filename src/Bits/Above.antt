-- ===== src/Bits/Above.antt =====
-- Comparison above a bit, `(a ^ b) & mask`, as arithmetic.
use Prim.Native.Nat.{bit_xor, differ, bit_xor-bitwise}
use native.Mathlib.Nat.{pow-succ', one-le-pow, mod-eq_of_lt, pow-le-pow_right, div-eq_of_lt}
use nemu.Base.{ℕ, zero, suc, ◌+◌, ◌-◌, ◌*◌, ◌/◌, ◌%◌, ◌^◌, ◌≤◌, ◌<◌, bit_and}
use nemu.Base.{◌≡◌, refl, sym, ◌∙◌, ap, arith, inl, inr, ◌⊎◌, ◌↔◌}
use nemu.Bits.{test_bit, test_bit-zero, test_bit-digits, eq_of_bits, bit_and_step, bit_and-zero}
use nemu.Bits.Pack.{bit_and_mask}
use nemu.Bits.Trailing.{twice, quotient_step, remainder_step}

-- A mask of the bits from `j` on, below `n`.
pub bit_and_above : (n j a : ℕ) → j ≤ n → bit_and a (2 ^ n - 2 ^ j) ≡ a % 2 ^ n / 2 ^ j * 2 ^ j
bit_and_above n zero a h = omega (arith, bit_and_mask n a)
bit_and_above zero (suc j) a h = absurd (omega arith)
bit_and_above (suc n) (suc j) a h = omega (
  arith,
  bit_and_step a (2 ^ suc n - 2 ^ suc j),
  ap (λ (t : ℕ). bit_and (a / 2) t) half,
  bit_and_above n j (a / 2) (omega arith),
  quotient_step (a % 2 ^ suc n) j,
  ap (λ (t : ℕ). t / 2 ^ j) halved,
  twice (a / 2 % 2 ^ n / 2 ^ j) j,
  ap (λ (t : ℕ). t * 2 ^ suc j)
      (quotient_step (a % 2 ^ suc n) j ∙ ap (λ (t : ℕ). t / 2 ^ j) halved),
  pow-succ' 2 n,
  pow-succ' 2 j,
)
  where
    half : (2 ^ suc n - 2 ^ suc j) / 2 ≡ 2 ^ n - 2 ^ j
    half = omega (arith, pow-succ' 2 n, pow-succ' 2 j)

    halved : a % 2 ^ suc n / 2 ≡ a / 2 % 2 ^ n
    halved = omega (arith, remainder_step a n)

digit_differ : (x y : ℕ) → x < 2 → y < 2 → differ x y < 2
digit_differ zero y p q = q
digit_differ (suc x) zero p q = p
digit_differ (suc zero) (suc zero) p q = omega arith
digit_differ (suc (suc x)) y p q = absurd (omega arith)
digit_differ x (suc (suc y)) p q = absurd (omega arith)

test_bit-bit_xor : (a b i : ℕ) → test_bit (bit_xor a b) i ≡ differ (test_bit a i) (test_bit b i)
test_bit-bit_xor a b i =
    ap (λ (t : ℕ). test_bit t i) (bit_xor-bitwise a b)
    ∙ test_bit-digits (λ b. b) differ digit_differ (λ b i. refl) a a b i (omega arith)

bit_xor-half : (a b : ℕ) → bit_xor a b / 2 ≡ bit_xor (a / 2) (b / 2)
bit_xor-half a b =
    eq_of_bits _ _ (λ i. test_bit-bit_xor a b (suc i) ∙ sym (test_bit-bit_xor (a / 2) (b / 2) i))

bit_xor-above : (j a b : ℕ) → bit_xor a b / 2 ^ j ≡ bit_xor (a / 2 ^ j) (b / 2 ^ j)
bit_xor-above zero a b =
    div_one (bit_xor a b)
    ∙ sym (
        ap (λ (t : ℕ). bit_xor t (b / 2 ^ 0)) (div_one a) ∙ ap (λ (t : ℕ). bit_xor a t) (div_one b))
  where
    div_one : (x : ℕ) → x / 2 ^ 0 ≡ x
    div_one x = omega arith
bit_xor-above (suc j) a b =
    quotient_step (bit_xor a b) j
    ∙ ap (λ (t : ℕ). t / 2 ^ j) (bit_xor-half a b)
    ∙ bit_xor-above j (a / 2) (b / 2)
    ∙ ap (λ (t : ℕ). bit_xor t (b / 2 / 2 ^ j)) (sym (quotient_step a j))
    ∙ ap (λ (t : ℕ). bit_xor (a / 2 ^ suc j) t) (sym (quotient_step b j))

bit_xor-same : (a : ℕ) → bit_xor a a ≡ 0
bit_xor-same a =
    eq_of_bits _ _ (λ i. test_bit-bit_xor a a i ∙ none (test_bit a i) ∙ sym (test_bit-zero i))
  where
    none : (b : ℕ) → differ b b ≡ 0
    none zero = refl
    none (suc b) = none b

eq_of_bit_xor : (a b : ℕ) → bit_xor a b ≡ 0 → a ≡ b
eq_of_bit_xor a b h = eq_of_bits a b (λ i.
    equal (test_bit a i) (test_bit b i)
      (sym (test_bit-bit_xor a b i) ∙ ap (λ (t : ℕ). test_bit t i) h ∙ test_bit-zero i))
  where
    equal : (x y : ℕ) → differ x y ≡ 0 → x ≡ y
    equal zero y e = sym e
    equal (suc x) zero e = e
    equal (suc x) (suc y) e = ap (λ (t : ℕ). suc t) (equal x y e)

product_zero : (q j : ℕ) → q * 2 ^ j ≡ 0 → q ≡ 0
product_zero zero j h = refl
product_zero (suc q) j h = absurd (omega (arith, one-le-pow j 2, more))
  where
    more : suc q * 2 ^ j ≡ q * 2 ^ j + 2 ^ j
    more = omega arith

-- `(a ^ b) & mask` is zero exactly where the two words agree above the bit where the mask starts.
module _ (j a b : ℕ) (ha : a < 2 ^ 64) (hb : b < 2 ^ 64) where
  small : bit_xor a b < 2 ^ 64
  small =
      omega
        (arith, bit_xor-above 64 a b ∙ none (a / 2 ^ 64) (b / 2 ^ 64) (omega arith) (omega arith))
    where
      none : (x y : ℕ) → x ≡ 0 → y ≡ 0 → bit_xor x y ≡ 0
      none x y e f = rw (e, f) refl

  large : 64 < j → (a / 2 ^ j ≡ 0) × (b / 2 ^ j ≡ 0) × (2 ^ 64 - 2 ^ j ≡ 0)
  large h =
      let long : 2 ^ 64 ≤ 2 ^ j = pow-le-pow_right (omega arith) {i = 64} (omega arith) in
      (div-eq_of_lt (omega arith), div-eq_of_lt (omega arith), omega arith)

  kept : j ≤ 64 → bit_and (bit_xor a b) (2 ^ 64 - 2 ^ j) ≡ bit_xor (a / 2 ^ j) (b / 2 ^ j) * 2 ^ j
  kept h =
      bit_and_above 64 j (bit_xor a b) h
      ∙ ap (λ (t : ℕ). t / 2 ^ j * 2 ^ j) (mod-eq_of_lt small)
      ∙ ap (λ (t : ℕ). t * 2 ^ j) (bit_xor-above j a b)

  pub agree_above : (bit_and (bit_xor a b) (2 ^ 64 - 2 ^ j) ≡ 0) ↔ (a / 2 ^ j ≡ b / 2 ^ j)
  agree_above = elim (sides j) [
    | inl le ↦ (
      (λ h. eq_of_bit_xor (a / 2 ^ j) (b / 2 ^ j) (product_zero _ j (sym (kept le) ∙ h))),
      (λ e.
          kept le
          ∙ ap (λ (t : ℕ). bit_xor t (b / 2 ^ j) * 2 ^ j) e
          ∙ ap (λ (t : ℕ). t * 2 ^ j) (bit_xor-same (b / 2 ^ j))
          ∙ none),
    )
    | inr gt ↦
        let l = large gt in
        (
          (λ h. l.0 ∙ sym l.1),
          (λ e. ap (λ (t : ℕ). bit_and (bit_xor a b) t) l.2 ∙ bit_and-zero (bit_xor a b)),
        )
  ]
    where
      none : 0 * 2 ^ j ≡ 0
      none = omega arith

      sides : (j : ℕ) → (j ≤ 64) ⊎ (64 < j)
      sides j = omega arith
