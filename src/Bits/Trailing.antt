-- ===== src/Bits/Trailing.antt =====
-- The trailing ones of a word, `m & ~(m + 1)`, as arithmetic.
use native.Mathlib.Nat.{pow-succ', one-le-pow, div-div-eq-div-mul, mod-eq_of_lt, mod-lt}
use nemu.Base.{ℕ, zero, suc, ◌+◌, ◌-◌, ◌*◌, ◌/◌, ◌%◌, ◌^◌, ◌≤◌, ◌<◌, bit_and, bit_or}
use nemu.Base.{◌≡◌, refl, sym, ◌∙◌, ap, arith, inl, inr, ◌⊎◌}
use nemu.Bits.{bit_and_step}
use nemu.Bits.Pack.{mod_step, bit_or_step, bit_or_comm, zero-bit_or}

pub twice : (q i : ℕ) → q * 2 ^ suc i ≡ 2 * (q * 2 ^ i)
twice q i = omega (arith, ap (λ (t : ℕ). q * t) (pow-succ' 2 i))

pub quotient_step : (m t : ℕ) → m / 2 ^ suc t ≡ m / 2 / 2 ^ t
quotient_step m t = ap (λ (d : ℕ). m / d) (pow-succ' 2 t) ∙ sym (div-div-eq-div-mul m 2 (2 ^ t))

pub remainder_step : (m t : ℕ) → m % 2 ^ suc t ≡ m % 2 + 2 * (m / 2 % 2 ^ t)
remainder_step m t = ap (λ (d : ℕ). m % d) (pow-succ' 2 t) ∙ mod_step m (2 ^ t)

-- A value and its complement share no bit.
disjoint : (k h : ℕ) → h < 2 ^ k → bit_and h (2 ^ k - 1 - h) ≡ 0
disjoint zero zero lt = refl
disjoint zero (suc h) lt = absurd (omega arith)
disjoint (suc k) h lt = omega (
  arith,
  bit_and_step h (2 ^ suc k - 1 - h),
  ap (λ (t : ℕ). bit_and (h / 2) t) half,
  disjoint k (h / 2) (omega (arith, pow-succ' 2 k)),
  pow-succ' 2 k,
)
  where
    half : (2 ^ suc k - 1 - h) / 2 ≡ 2 ^ k - 1 - h / 2
    half = omega (arith, pow-succ' 2 k)

-- `k` is the number of trailing ones of `h`, among `n` bits.
pub record Ones (n h k : ℕ) : Type 0 where
  pub bounded : k ≤ n
  pub ones : h % 2 ^ k ≡ 2 ^ k - 1
  pub ended : (k ≡ n) ⊎ (h / 2 ^ k % 2 ≡ 0)

Ones-half : (n t m : ℕ) → Ones (suc n) m (suc t) → Ones n (m / 2) t
Ones-half n t m o = record {
  bounded = omega (arith, o.bounded);
  ones = omega (arith, o.ones, remainder_step m t, pow-succ' 2 t, one-le-pow t 2);
  ended = elim o.ended [
    | inl e ↦ inl (omega arith)
    | inr z ↦ inr (ap (λ (t : ℕ). t % 2) (sym (quotient_step m t)) ∙ z)
  ];
}

Ones-double : (n t m : ℕ) → m % 2 ≡ 1 → Ones n (m / 2) t → Ones (suc n) m (suc t)
Ones-double n t m odd o = record {
  bounded = omega (arith, o.bounded);
  ones = omega (arith, o.ones, remainder_step m t, pow-succ' 2 t, one-le-pow t 2);
  ended = elim o.ended [
    | inl e ↦ inl (omega arith)
    | inr z ↦ inr (ap (λ (t : ℕ). t % 2) (quotient_step m t) ∙ z)
  ];
}

pub trailing :
    (n t m : ℕ) → m < 2 ^ n → Ones n m t → bit_and m (2 ^ n - 1 - (m + 1) % 2 ^ n) ≡ 2 ^ t - 1
trailing zero zero zero lt o = refl
trailing zero zero (suc m) lt o = absurd (omega arith)
trailing zero (suc t) m lt o = absurd (omega (arith, o.bounded))
trailing (suc n) zero m lt o = elim o.ended [
  | inl e ↦ absurd (omega arith)
  | inr even ↦ omega (
    arith,
    bit_and_step m (2 ^ suc n - 1 - (m + 1) % 2 ^ suc n),
    ap (λ (t : ℕ). bit_and (m / 2) t) (half (omega arith)),
    disjoint n (m / 2) (omega (arith, pow-succ' 2 n)),
  )
]
  where
    half : m % 2 ≡ 0 → (2 ^ suc n - 1 - (m + 1) % 2 ^ suc n) / 2 ≡ 2 ^ n - 1 - m / 2
    half e = omega (
      arith,
      remainder_step (m + 1) n,
      ap (λ (t : ℕ). t % 2 ^ n) same,
      mod-eq_of_lt below,
      pow-succ' 2 n,
    )
      where
        same : (m + 1) / 2 ≡ m / 2
        same = omega arith

        below : m / 2 < 2 ^ n
        below = omega (arith, pow-succ' 2 n)
trailing (suc n) (suc t) m lt o = omega (
  arith,
  bit_and_step m (2 ^ suc n - 1 - (m + 1) % 2 ^ suc n),
  ap (λ (t : ℕ). bit_and (m / 2) t) half,
  odd,
  remains,
  small,
  trailing n t (m / 2) (omega (arith, pow-succ' 2 n)) (Ones-half n t m o),
  pow-succ' 2 n,
  pow-succ' 2 t,
  one-le-pow t 2,
)
  where
    odd : m % 2 ≡ 1
    odd = omega (arith, o.ones, remainder_step m t, pow-succ' 2 t, one-le-pow t 2)

    remains : (m + 1) % 2 ^ suc n ≡ 2 * ((m / 2 + 1) % 2 ^ n)
    remains = omega (arith, odd, remainder_step (m + 1) n, ap (λ (t : ℕ). t % 2 ^ n) next)
      where
        next : (m + 1) / 2 ≡ m / 2 + 1
        next = omega (arith, odd)

    small : (m / 2 + 1) % 2 ^ n < 2 ^ n
    small = mod-lt (m / 2 + 1) (one-le-pow n 2 (omega arith))

    half : (2 ^ suc n - 1 - (m + 1) % 2 ^ suc n) / 2 ≡ 2 ^ n - 1 - (m / 2 + 1) % 2 ^ n
    half = omega (arith, remains, small, pow-succ' 2 n)

pub some-Ones : (n h : ℕ) → h < 2 ^ n → (k : ℕ) × Ones n h k
some-Ones zero h lt = (0, record { bounded = omega arith; ones = omega arith; ended = inl refl })
some-Ones (suc n) h lt = elim (parity h) [
  | inl even ↦ (0, record { bounded = omega arith; ones = omega arith; ended = inr (omega arith) })
  | inr odd ↦
      let (k, o) = some-Ones n (h / 2) (omega (arith, pow-succ' 2 n)) in
      (suc k, Ones-double n k h odd o)
]
  where
    parity : (h : ℕ) → (h % 2 ≡ 0) ⊎ (h % 2 ≡ 1)
    parity h = omega arith

-- `|` with a mask of low ones.
pub bit_or_ones : (k x : ℕ) → bit_or x (2 ^ k - 1) ≡ x / 2 ^ k * 2 ^ k + (2 ^ k - 1)
bit_or_ones zero x = omega (arith, bit_or_comm x 0, zero-bit_or x)
bit_or_ones (suc k) x = omega (
  arith,
  bit_or_step x (2 ^ suc k - 1),
  ap (λ (t : ℕ). bit_or (x / 2) t) half,
  bit_or_ones k (x / 2),
  ap (λ (t : ℕ). t * 2 ^ suc k) (quotient_step x k),
  twice (x / 2 / 2 ^ k) k,
  pow-succ' 2 k,
  one-le-pow k 2,
)
  where
    half : (2 ^ suc k - 1) / 2 ≡ 2 ^ k - 1
    half = omega (arith, pow-succ' 2 k, one-le-pow k 2)

abbrev pub grow : ℕ → ℕ → ℕ
grow zero k = k
grow (suc j) k = suc (grow j k)

-- Ones put below a value are trailing ones of it.
pub Ones-grow : (j n h k : ℕ) → Ones n h k → Ones (grow j n) (h * 2 ^ j + (2 ^ j - 1)) (grow j k)
Ones-grow zero n h k o = rw same o
  where
    same : h * 2 ^ 0 + (2 ^ 0 - 1) ≡ h
    same = omega arith
Ones-grow (suc j) n h k o =
    Ones-double (grow j n) (grow j k) (h * 2 ^ suc j + (2 ^ suc j - 1))
      (omega (arith, twice h j, pow-succ' 2 j, one-le-pow j 2)) (rw half (Ones-grow j n h k o))
  where
    half : (h * 2 ^ suc j + (2 ^ suc j - 1)) / 2 ≡ h * 2 ^ j + (2 ^ j - 1)
    half = omega (arith, twice h j, pow-succ' 2 j, one-le-pow j 2)
