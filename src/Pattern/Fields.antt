-- ===== src/Pattern/Fields.antt =====
-- The test of an instruction against a pattern as comparisons of bit fields with constants.
use native.Mathlib.Nat.{
  pow-succ', div-div-eq-div-mul, mul-add-mod_self_right, mod-eq_of_lt, mod-lt, div-add-mod',
  one-le-pow,
}
use nemu.Base.{ℕ, zero, suc, ◌+◌, ◌*◌, ◌/◌, ◌%◌, ◌^◌, ◌<◌, ◌≤◌, ◌≡◌, refl, sym, ap, ◌∙◌, arith}
use nemu.Base.{Bool, true, ◌&&◌, ◌||◌, ◌==◌, if◌then◌else◌, Bool-cases, leb, inl, inr, ◌⊎◌}
use nemu.Base.{List, [], ◌∷◌, length, field}
use nemu.Pattern.{space, one_char, any_char, matches}
use nemu.Pattern.Matches.{agrees, reverse_onto, bits, are_valid, pattern_decode-agrees}

-- The comparisons for the characters from the last on, where `part` gives the bit fields: `n` digits with
-- the value `v` are read since bit `lo`, and a space or a question mark ends their field.
unfoldable pub fields : List ℕ → (lo n v : ℕ) → (ℕ → ℕ → ℕ) → Bool
fields [] lo n v part = (n == 0) || (part lo n == v)
fields (c ∷ cs) lo n v part =
    let ended = fields cs (lo + n) 0 0 part in
    let any = fields cs (lo + n + 1) 0 0 part in
    let digit = fields cs lo (n + 1) (v + (if c == one_char then 1 else 0) * 2 ^ n) part in
    if c == space
    then ((n == 0) || (part lo n == v)) && ended
    else if c == any_char
    then ((n == 0) || (part lo n == v)) && any
    else digit

-- The comparisons of a whole pattern.
abbrev pub tests : List ℕ → (ℕ → ℕ → ℕ) → Bool
tests str part = fields (reverse_onto str []) 0 0 0 part

-- A pattern that the code accepts.
abbrev pub is_pattern : List ℕ → Bool
is_pattern str = leb (length str) 64 && leb (bits str) 32 && are_valid str

-- One bit more of a remainder.
mod_step : (x p : ℕ) → 0 < p → x % (2 * p) ≡ x % p + x / p % 2 * p
mod_step x p pos =
    ap (λ (t : ℕ). t % (2 * p)) whole
    ∙ mul-add-mod_self_right (x / p / 2) (2 * p) _
    ∙ mod-eq_of_lt small
  where
    bit : (b : ℕ) → b < 2 → x % p + b * p < 2 * p
    bit zero h = omega (arith, mod-lt x pos)
    bit (suc zero) h = omega (arith, mod-lt x pos)
    bit (suc (suc b)) h = absurd (omega arith)

    small : x % p + x / p % 2 * p < 2 * p
    small = bit (x / p % 2) (omega arith)

    distribute : (q b h : ℕ) → q ≡ 2 * h + b → q * p ≡ h * (2 * p) + b * p
    distribute q b h e = rw e (omega arith)

    whole : x ≡ x / p / 2 * (2 * p) + (x % p + x / p % 2 * p)
    whole =
        omega (arith, div-add-mod' x p, distribute (x / p) (x / p % 2) (x / p / 2) (omega arith))

pow_pos : (n : ℕ) → 0 < 2 ^ n
pow_pos n = one-le-pow n 2 (omega arith)

next_bit_at :
    (r q p v b : ℕ)
    → r < p
    → v < p
    → q < 2
    → b < 2
    → (r + q * p == v + b * p) ≡ ((r == v) && (q == b))
next_bit_at r q p v b hr hv hq hb = elim (two q hq) [
  | inl e ↦ elim (two b hb) [ inl f ↦ rw (e, f) (ground arith) | inr f ↦ rw (e, f) (ground arith) ]
  | inr e ↦ elim (two b hb) [ inl f ↦ rw (e, f) (ground arith) | inr f ↦ rw (e, f) (ground arith) ]
]
  where
    two : (a : ℕ) → a < 2 → (a ≡ 0) ⊎ (a ≡ 1)
    two a h = ground arith

next_bit :
    (x n v b : ℕ)
    → v < 2 ^ n
    → b < 2
    → (x % 2 ^ suc n == v + b * 2 ^ n) ≡ ((x % 2 ^ n == v) && (x / 2 ^ n % 2 == b))
next_bit x n v b hv hb =
    ap (λ (t : ℕ). t == v + b * 2 ^ n)
      (ap (λ (t : ℕ). x % t) (pow-succ' 2 n) ∙ mod_step x (2 ^ n) (pow_pos n))
    ∙ next_bit_at (x % 2 ^ n) (x / 2 ^ n % 2) (2 ^ n) v b (mod-lt x (pow_pos n)) hv (omega arith) hb

pow_add : (a n : ℕ) → 2 ^ (a + n) ≡ 2 ^ a * 2 ^ n
pow_add a zero = ap (λ (t : ℕ). 2 ^ t) at ∙ omega arith
  where
    at : a + 0 ≡ a
    at = omega arith
pow_add a (suc n) =
    ap (λ (t : ℕ). 2 ^ t) at
    ∙ pow-succ' 2 (a + n)
    ∙ step (2 ^ a) (2 ^ n) (pow_add a n) (pow-succ' 2 n)
  where
    at : a + suc n ≡ suc (a + n)
    at = omega arith

    step : {x y' : ℕ} (y z : ℕ) → x ≡ y * z → y' ≡ 2 * z → 2 * x ≡ y * y'
    step y z e f = rw (e, f) (omega arith)

beyond : (w a n t : ℕ) → a + n ≡ t → w / 2 ^ a / 2 ^ n ≡ w / 2 ^ t
beyond w a n t e =
    div-div-eq-div-mul w (2 ^ a) (2 ^ n)
    ∙ ap (λ (x : ℕ). w / x) (sym (pow_add a n))
    ∙ ap (λ (x : ℕ). w / 2 ^ x) e

empty_field : (x n v : ℕ) → v < 2 ^ n → ((n == 0) || (x % 2 ^ n == v)) ≡ (x % 2 ^ n == v)
empty_field x zero v h = ground arith
empty_field x (suc n) v h = ground arith

value_bound : (n v b : ℕ) → v < 2 ^ n → b < 2 → v + b * 2 ^ n < 2 ^ (n + 1)
value_bound n v b h hb = omega (arith, pow_add n 1, below b hb)
  where
    below : (b : ℕ) → b < 2 → b * 2 ^ n ≤ 2 ^ n
    below zero h = omega arith
    below (suc zero) h = omega arith
    below (suc (suc b)) h = absurd (omega arith)

-- One digit more in the field that is being read.
digit_lem :
    (rest : ℕ → Bool) (lo n v b w : ℕ)
    → v < 2 ^ n
    → b < 2
    → v + b * 2 ^ n < 2 ^ (n + 1)
    → (((n + 1 == 0) || (field w lo (n + 1) == v + b * 2 ^ n)) && rest (w / 2 ^ (lo + (n + 1)))) ≡ (
        ((n == 0) || (field w lo n == v))
        && ((w / 2 ^ (lo + n) % 2 == b) && rest (w / 2 ^ (lo + n) / 2)))
digit_lem rest lo n v b w h hb bound =
    rw
      (
        sym halved,
        empty_field (w / 2 ^ lo) n v h,
        empty_field (w / 2 ^ lo) (n + 1) (v + b * 2 ^ n) bound,
        more,
      )
      (ground arith)
  where
    halved : w / 2 ^ (lo + n) / 2 ≡ w / 2 ^ (lo + (n + 1))
    halved = beyond w (lo + n) 1 _ (omega arith)

    suc_n : n + 1 ≡ suc n
    suc_n = omega arith

    more :
        (field w lo (n + 1) == v + b * 2 ^ n) ≡ ((field w lo n == v) && (w / 2 ^ (lo + n) % 2 == b))
    more = rw (suc_n, sym (beyond w lo n _ refl)) (next_bit (w / 2 ^ lo) n v b h hb)

fields-agrees :
    (cs : List ℕ) (lo n v w : ℕ)
    → v < 2 ^ n
    → fields cs lo n v (field w)
      ≡ (((n == 0) || (field w lo n == v)) && agrees cs (w / 2 ^ (lo + n)))
unfolding fields agrees
fields-agrees [] lo n v w h = ground arith
fields-agrees (c ∷ cs) lo n v w h = elim (Bool-cases (c == space)) [
  | inl y ↦
      rw (y, fields-agrees cs (lo + n) 0 0 w (omega arith), sym (beyond w (lo + n) 0 _ refl), one)
        refl
  | inr other ↦ elim (Bool-cases (c == any_char)) [
    | inl y ↦ rw (other, y, fields-agrees cs (lo + n + 1) 0 0 w (omega arith), at_any) refl
    | inr fixed ↦
        let b = if c == one_char then 1 else 0 in
        let bound = value_bound n v b h (ground arith) in
        rw (other, fixed, fields-agrees cs lo (n + 1) (v + b * 2 ^ n) w bound)
          (digit_lem (agrees cs) lo n v b w h (ground arith) bound)
  ]
]
  where
    one : w / 2 ^ (lo + n) / 2 ^ 0 ≡ w / 2 ^ (lo + n)
    one = omega arith

    at_any : w / 2 ^ (lo + n + 1 + 0) ≡ w / 2 ^ (lo + n) / 2
    at_any = sym (beyond w (lo + n) 1 _ (omega arith))

-- A pattern that the code accepts: its test is the conjunction of the comparisons.
pub matches-tests :
    (str : List ℕ) → is_pattern str ≡ true → (w : ℕ) → matches str w ≡ tests str (field w)
unfolding matches
matches-tests str good w =
    let (p, decoded, same) =
      pattern_decode-agrees str (ground arith) (ground arith) (ground arith) in
    rw (matches, decoded) (same w ∙ sym (whole w))
  where
    whole : (w : ℕ) → tests str (field w) ≡ agrees (reverse_onto str []) w
    whole w =
        fields-agrees (reverse_onto str []) 0 0 0 w (omega arith)
        ∙ ap (agrees (reverse_onto str [])) (at w)
      where
        at : (w : ℕ) → w / 2 ^ (0 + 0) ≡ w
        at w = omega arith
