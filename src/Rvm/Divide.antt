-- ===== src/Rvm/Divide.antt =====
-- Division: the rules of the M extension, with no trap for any operands.
use native.Mathlib.Nat.{div-add-mod', mod-lt, div-le_self}
use nemu.Base.{ℕ, ◌+◌, ◌-◌, ◌*◌, ◌/◌, ◌%◌, ◌^◌, ◌<◌, ◌≤◌, ◌≡◌, refl, arith, Bool, true, false}
use nemu.Base.{Bool-cases, ◌==◌, ◌&&◌, inl, inr, ◌⊎◌}
use nemu.Rvm.{div, divu, rem, remu, is_neg, abs64, with_sign, c_divs_q, c_divs_r, differ}

-- Division of unsigned words: by zero the quotient is all ones and the remainder the dividend,
-- otherwise the two are those of Euclidean division.
pub divu-remu :
    (a b : ℕ)
    → ((b ≡ 0) × (divu a b ≡ 2 ^ 64 - 1) × (remu a b ≡ a))
      ⊎ ((divu a b * b + remu a b ≡ a) × (remu a b < b))
unfolding divu remu
divu-remu a b = elim (Bool-cases (b == 0)) [
  | inl z ↦ rw z (inl (ground arith, refl, refl))
  | inr nz ↦ rw nz (inr (div-add-mod' a b, mod-lt a (ground arith)))
]

abs64-with_sign : (negative : Bool) (m : ℕ) → m ≤ 2 ^ 63 → abs64 (with_sign negative m) ≡ m
abs64-with_sign true m h = ground arith
abs64-with_sign false m h = ground arith

is_neg-with_sign :
    (negative : Bool) (m : ℕ)
    → m ≤ 2 ^ 63
    → (is_neg (with_sign negative m) ≡ negative) ⊎ ((m ≡ 0) ⊎ (m ≡ 2 ^ 63))
is_neg-with_sign true m h = ground arith
is_neg-with_sign false m h = ground arith

is_neg-with_sign_lt :
    (negative : Bool) (m : ℕ) → m < 2 ^ 63 → (is_neg (with_sign negative m) ≡ negative) ⊎ (m ≡ 0)
is_neg-with_sign_lt true m h = ground arith
is_neg-with_sign_lt false m h = ground arith

abs64-le : (a : ℕ) → a < 2 ^ 64 → abs64 a ≤ 2 ^ 63
abs64-le a h = ground arith

nonzero_abs64 : (b : ℕ) → b < 2 ^ 64 → (b == 0) ≡ false → 0 < abs64 b
nonzero_abs64 b h nz = ground arith

quotient_le : (a b : ℕ) → a < 2 ^ 64 → abs64 a / abs64 b ≤ 2 ^ 63
quotient_le a b h = omega (arith, div-le_self (abs64 a) (abs64 b), abs64-le a h)

remainder_lt : (a b : ℕ) → b < 2 ^ 64 → (b == 0) ≡ false → abs64 a % abs64 b < 2 ^ 63
remainder_lt a b g nz = omega (arith, mod-lt (abs64 a) (nonzero_abs64 b g nz), abs64-le b g)

-- Division of signed words, by magnitude and sign. The quotient 2 ^ 63 is the one that does not fit
-- when it is positive, and wraps.
pub record Truncates (a b q r : ℕ) : Type 0 where
  pub quotient : abs64 q ≡ abs64 a / abs64 b
  pub remainder : abs64 r ≡ abs64 a % abs64 b
  pub quotient_sign :
      (is_neg q ≡ differ (is_neg a) (is_neg b)) ⊎ ((abs64 q ≡ 0) ⊎ (abs64 q ≡ 2 ^ 63))
  pub remainder_sign : (is_neg r ≡ is_neg a) ⊎ (abs64 r ≡ 0)

overflow_Truncates : Truncates (2 ^ 63) (2 ^ 64 - 1) (2 ^ 63) 0
overflow_Truncates = record {
  quotient = refl;
  remainder = refl;
  quotient_sign = inr (inr refl);
  remainder_sign = inr refl;
}

fitting_Truncates :
    (a b : ℕ)
    → a < 2 ^ 64
    → b < 2 ^ 64
    → (b == 0) ≡ false
    → Truncates a b (c_divs_q a b) (c_divs_r a b)
unfolding c_divs_q c_divs_r
fitting_Truncates a b h g nz =
    let q = abs64-with_sign (differ (is_neg a) (is_neg b)) _ (quotient_le a b h) in
    let lt = remainder_lt a b g nz in
    let r = abs64-with_sign (is_neg a) (abs64 a % abs64 b) (omega (arith, lt)) in
    record {
      quotient = q;
      remainder = r;
      quotient_sign = rw q (is_neg-with_sign _ _ (quotient_le a b h));
      remainder_sign = rw r (is_neg-with_sign_lt _ _ lt);
    }

-- Division by zero gives what the M extension says, and every other division of signed words, the
-- overflow included, truncates towards zero, the remainder with the sign of the dividend.
pub div-rem :
    (a b : ℕ)
    → a < 2 ^ 64
    → b < 2 ^ 64
    → ((b ≡ 0) × (div a b ≡ 2 ^ 64 - 1) × (rem a b ≡ a)) ⊎ Truncates a b (div a b) (rem a b)
unfolding div rem
div-rem a b h g = elim (Bool-cases (b == 0)) [
  | inl z ↦ rw z (inl (ground arith, refl, refl))
  | inr nz ↦ elim (Bool-cases ((a == 2 ^ 63) && (b == 2 ^ 64 - 1))) [
    | inl over ↦
        let at : a ≡ 2 ^ 63 = ground arith in
        let by : b ≡ 2 ^ 64 - 1 = ground arith in rw (nz, over, at, by) (inr overflow_Truncates)
    | inr fits ↦ rw (nz, fits) (inr (fitting_Truncates a b h g nz))
  ]
]
