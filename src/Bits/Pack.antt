-- ===== src/Bits/Pack.antt =====
-- Packing bit fields by `|`, and masks of high bits, as arithmetic.
use native.Mathlib.Nat.{
  pow-succ', one-le-pow, mod-eq-sub-mul-div, div-div-eq-div-mul, mul_assoc, div-add-mod,
}
use nemu.Base.{ℕ, zero, suc, ◌+◌, ◌-◌, ◌*◌, ◌/◌, ◌%◌, ◌^◌, ◌<◌, min, max, bit_and, bit_or}
use nemu.Base.{◌==◌, ◌!=◌, ◌≡◌, refl, sym, ◌∙◌, ap, arith, not64, inl, inr, ◌⊎◌}
use nemu.Bits.{
  test_bit-lt, test_bit-eq-field, test_bit, test_bit-zero, test_bit-bit_or, eq_of_bits,
  bit_and_step, bit_and-zero,
}

pub bit_or_step : (a b : ℕ) → bit_or a b ≡ bit_or (a / 2) (b / 2) * 2 + max (a % 2) (b % 2)
bit_or_step a b = eq_of_bits _ _ bits
  where
    bits :
        (i : ℕ)
        → test_bit (bit_or a b) i ≡ test_bit (bit_or (a / 2) (b / 2) * 2 + max (a % 2) (b % 2)) i
    bits zero = omega (arith, test_bit-bit_or a b 0)
    bits (suc i) =
        test_bit-bit_or a b (suc i)
        ∙ sym (test_bit-bit_or (a / 2) (b / 2) i)
        ∙ ap (λ (t : ℕ). test_bit t i) (omega arith)

pub zero-bit_or : (b : ℕ) → bit_or 0 b ≡ b
zero-bit_or b = eq_of_bits _ _ (λ i. test_bit-bit_or 0 b i ∙ omega (arith, test_bit-zero i))

-- A value of `k` bits and one above them do not overlap, so `|` adds them.
pub bit_or-eq-add : (k r q : ℕ) → r < 2 ^ k → bit_or r (q * 2 ^ k) ≡ r + q * 2 ^ k
bit_or-eq-add zero zero q h = zero-bit_or (q * 1) ∙ omega arith
bit_or-eq-add zero (suc r) q h = absurd (omega arith)
bit_or-eq-add (suc k) r q h =
    let twice : q * 2 ^ suc k ≡ 2 * (q * 2 ^ k) =
      omega (arith, ap (λ (t : ℕ). q * t) (pow-succ' 2 k)) in
    omega (
      arith,
      bit_or_step r (q * 2 ^ suc k),
      ap (λ (t : ℕ). bit_or (r / 2) (t / 2)) twice,
      ap (λ (t : ℕ). bit_or (r / 2) t) (half (q * 2 ^ k)),
      bit_or-eq-add k (r / 2) q (omega (arith, pow-succ' 2 k)),
    )
  where
    half : (n : ℕ) → 2 * n / 2 ≡ n
    half n = omega arith

-- A mask of `k` ones keeps a value of `k` bits.
pub bit_and_ones : (k a : ℕ) → a < 2 ^ k → bit_and a (2 ^ k - 1) ≡ a
bit_and_ones zero zero h = refl
bit_and_ones zero (suc a) h = absurd (omega arith)
bit_and_ones (suc k) a h = omega (
  arith,
  bit_and_step a (2 ^ suc k - 1),
  ap (λ (t : ℕ). bit_and (a / 2) t) half,
  bit_and_ones k (a / 2) (omega (arith, pow-succ' 2 k)),
  pow-succ' 2 k,
  one-le-pow k 2,
)
  where
    half : (2 ^ suc k - 1) / 2 ≡ 2 ^ k - 1
    half = omega (arith, pow-succ' 2 k, one-le-pow k 2)

-- `x & ~7` rounds down to a multiple of eight.
pub bit_and_align8 : (a : ℕ) → a < 2 ^ 64 → bit_and a (not64 7) ≡ a / 8 * 8
bit_and_align8 a h = omega (
  arith,
  bit_and_step a (not64 7),
  bit_and_step (a / 2) (not64 7 / 2),
  bit_and_step (a / 2 / 2) (not64 7 / 2 / 2),
  bit_and_ones 61 (a / 2 / 2 / 2) (omega arith),
)

-- Eight more places.
pub pow_add8 : (n : ℕ) → 2 ^ (n + 8) ≡ 256 * 2 ^ n
pow_add8 n =
    ap (λ (t : ℕ). 2 ^ t) more
    ∙ omega (
      arith,
      pow-succ' 2 n,
      pow-succ' 2 (suc n),
      pow-succ' 2 (suc (suc n)),
      pow-succ' 2 (suc (suc (suc n))),
      pow-succ' 2 (suc (suc (suc (suc n)))),
      pow-succ' 2 (suc (suc (suc (suc (suc n))))),
      pow-succ' 2 (suc (suc (suc (suc (suc (suc n)))))),
      pow-succ' 2 (suc (suc (suc (suc (suc (suc (suc n))))))),
    )
  where
    more : n + 8 ≡ suc (suc (suc (suc (suc (suc (suc (suc n)))))))
    more = omega arith

-- Numbers whose `k` low bits are clear, under `&` and `|`.
pub mod_step : (v p : ℕ) → v % (2 * p) ≡ v % 2 + 2 * (v / 2 % p)
mod_step v p = omega (
  arith,
  mod-eq-sub-mul-div v (2 * p),
  div-div-eq-div-mul v 2 p,
  mod-eq-sub-mul-div (v / 2) p,
  mul_assoc 2 p (v / (2 * p)),
  ap (λ (q : ℕ). p * q) (div-div-eq-div-mul v 2 p),
  div-add-mod (v / 2) p,
)

low_step : (k v : ℕ) → v % 2 ^ suc k ≡ v % 2 + 2 * (v / 2 % 2 ^ k)
low_step k v = ap (λ (m : ℕ). v % m) (pow-succ' 2 k) ∙ mod_step v (2 ^ k)

pub bit_or-low : (k a b : ℕ) → a % 2 ^ k ≡ 0 → b % 2 ^ k ≡ 0 → bit_or a b % 2 ^ k ≡ 0
bit_or-low zero a b h g = omega arith
bit_or-low (suc k) a b h g =
    low_step k (bit_or a b)
    ∙ omega (
      arith,
      bit_or_step a b,
      bit_or-low k (a / 2) (b / 2) (omega (arith, low_step k a)) (omega (arith, low_step k b)),
      low_step k a,
      low_step k b,
      ap (λ (t : ℕ). t / 2 % 2 ^ k) (bit_or_step a b),
      ap (λ (t : ℕ). t % 2 ^ k) (half (bit_or (a / 2) (b / 2)) (max (a % 2) (b % 2)) (omega arith)),
    )
  where
    half : (n c : ℕ) → c < 2 → (n * 2 + c) / 2 ≡ n
    half n c h = omega arith

pub bit_and-low : (k a b : ℕ) → (a % 2 ^ k ≡ 0) ⊎ (b % 2 ^ k ≡ 0) → bit_and a b % 2 ^ k ≡ 0
bit_and-low zero a b h = omega arith
bit_and-low (suc k) a b h =
    low_step k (bit_and a b)
    ∙ omega (
      arith,
      bit_and_step a b,
      bit_and-low k (a / 2) (b / 2) (halves k a b h),
      even k a b h,
      ap (λ (t : ℕ). t / 2 % 2 ^ k) (bit_and_step a b),
      ap (λ (t : ℕ). t % 2 ^ k)
          (half (bit_and (a / 2) (b / 2)) (min (a % 2) (b % 2)) (omega arith)),
    )
  where
    half : (n c : ℕ) → c < 2 → (n * 2 + c) / 2 ≡ n
    half n c h = omega arith

    halves :
        (k a b : ℕ)
        → (a % 2 ^ suc k ≡ 0) ⊎ (b % 2 ^ suc k ≡ 0)
        → (a / 2 % 2 ^ k ≡ 0) ⊎ (b / 2 % 2 ^ k ≡ 0)
    halves k a b (inl h) = inl (omega (arith, low_step k a))
    halves k a b (inr h) = inr (omega (arith, low_step k b))

    even : (k a b : ℕ) → (a % 2 ^ suc k ≡ 0) ⊎ (b % 2 ^ suc k ≡ 0) → (a % 2 ≡ 0) ⊎ (b % 2 ≡ 0)
    even k a b (inl h) = inl (omega (arith, low_step k a))
    even k a b (inr h) = inr (omega (arith, low_step k b))

-- A mask of ones takes the remainder.
pub bit_and_mask : (k a : ℕ) → bit_and a (2 ^ k - 1) ≡ a % 2 ^ k
bit_and_mask zero a = bit_and-zero a ∙ omega arith
bit_and_mask (suc k) a = omega (
  arith,
  bit_and_step a (2 ^ suc k - 1),
  ap (λ (t : ℕ). bit_and (a / 2) t) half,
  bit_and_mask k (a / 2),
  low_step k a,
  pow-succ' 2 k,
  one-le-pow k 2,
)
  where
    half : (2 ^ suc k - 1) / 2 ≡ 2 ^ k - 1
    half = omega (arith, pow-succ' 2 k, one-le-pow k 2)

pub bit_or_comm : (a b : ℕ) → bit_or a b ≡ bit_or b a
bit_or_comm a b = eq_of_bits _ _ (λ i. omega (arith, test_bit-bit_or a b i, test_bit-bit_or b a i))

-- A multiple of a power of two and a smaller value.
pub bit_or-add : (k x r : ℕ) → x % 2 ^ k ≡ 0 → r < 2 ^ k → bit_or x r ≡ x + r
bit_or-add k x r z h =
    bit_or_comm x r
    ∙ ap (λ (t : ℕ). bit_or r t) multiple
    ∙ bit_or-eq-add k r (x / 2 ^ k) h
    ∙ ap (λ (t : ℕ). r + t) (sym multiple)
    ∙ omega arith
  where
    multiple : x ≡ x / 2 ^ k * 2 ^ k
    multiple = omega (arith, div-add-mod x (2 ^ k))

-- A mask of one bit.
pub bit_and_single : (w i : ℕ) → bit_and w (2 ^ i) ≡ test_bit w i * 2 ^ i
bit_and_single w zero = omega (arith, bit_and_mask 1 w)
bit_and_single w (suc i) = omega (
  arith,
  bit_and_step w (2 ^ suc i),
  ap (λ (t : ℕ). bit_and (w / 2) t) half,
  bit_and_single (w / 2) i,
  twice (test_bit (w / 2) i),
  pow-succ' 2 i,
)
  where
    twice : (q : ℕ) → q * 2 ^ suc i ≡ 2 * (q * 2 ^ i)
    twice q = omega (arith, ap (λ (t : ℕ). q * t) (pow-succ' 2 i))

    half : 2 ^ suc i / 2 ≡ 2 ^ i
    half = omega (arith, pow-succ' 2 i)

pub has_bit : (w i : ℕ) → (bit_and w (2 ^ i) != 0) ≡ (w / 2 ^ i % 2 == 1)
has_bit w i =
    ap (λ (t : ℕ). t != 0) (bit_and_single w i)
    ∙ decide (test_bit w i) (test_bit-lt w i)
    ∙ ap (λ (t : ℕ). t == 1) (test_bit-eq-field w i)
  where
    decide : (b : ℕ) → b < 2 → (b * 2 ^ i != 0) ≡ (b == 1)
    decide zero h = ground arith
    decide (suc zero) h = ground (arith, one-le-pow i 2)
    decide (suc (suc b)) h = absurd (omega arith)
