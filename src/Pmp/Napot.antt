-- ===== src/Pmp/Napot.antt =====
-- The region of a naturally aligned entry: what the mask of the code compares.
use native.Mathlib.Nat.{pow-succ', one-le-pow, pow-le-pow_right}
use nemu.Base.{ℕ, ◌+◌, ◌-◌, ◌*◌, ◌/◌, ◌^◌, ◌≤◌, ◌<◌, ◌≡◌, ap, ◌∙◌, arith}
use nemu.Base.{
  Bool, true, false, inl, inr, ◌⊎◌, field, bit_and, bit_or, u64, not64, shl64, if◌then◌else◌,
}
use nemu.Bits.Pack.{bit_or-add}
use nemu.Bits.Trailing.{Ones, Ones-grow, grow, trailing, bit_or_ones}
use nemu.Pmp.{napot_mask, pmp_tor_mask}

-- The bits of the address register above those that the granularity fixes, with the fixed ones set.
abbrev filled : ℕ → ℕ
filled p = field p 9 54 * 2 ^ 10 + (2 ^ 10 - 1)

filled_lem :
    (p : ℕ) (is_na4 : Bool)
    → bit_or (bit_or (shl64 p 1) (if is_na4 then 0 else 1)) (not64 pmp_tor_mask) ≡ filled p
filled_lem p is_na4 =
    bit_or_ones 10 (bit_or (shl64 p 1) (if is_na4 then 0 else 1))
    ∙ ap (λ (t : ℕ). t / 2 ^ 10 * 2 ^ 10 + (2 ^ 10 - 1))
        (bit_or-add 1 (shl64 p 1) (if is_na4 then 0 else 1) (omega arith) bit)
    ∙ at is_na4
  where
    bit : (if is_na4 then 0 else 1) < 2 ^ 1
    bit = ground arith

    at : (b : Bool) → (shl64 p 1 + (if b then 0 else 1)) / 2 ^ 10 * 2 ^ 10 + (2 ^ 10 - 1) ≡ filled p
    at true = omega arith
    at false = omega arith

at_places :
    (y : ℕ)
    → 1 ≤ y
    → (y ≤ 2 ^ 62) ⊎ ((y ≡ 2 ^ 63) ⊎ (y ≡ 2 ^ 64))
    → shl64 (not64 (y - 1)) 2 ≡ 2 ^ 64 - 4 * y
at_places y pos (inl le) = omega arith
at_places y pos (inr (inl e)) = omega arith
at_places y pos (inr (inr e)) = omega arith

-- The mask, for an address register with `k` trailing ones above the granularity.
pub napot_mask_lem :
    (p : ℕ) (is_na4 : Bool) (k : ℕ)
    → Ones 54 (field p 9 54) k
    → napot_mask p is_na4 ≡ 2 ^ 64 - 2 ^ (12 + k)
unfolding napot_mask
napot_mask_lem p is_na4 k o =
    ap (λ (m : ℕ). shl64 (not64 (bit_and m (not64 (u64 (m + 1))))) 2) (filled_lem p is_na4)
    ∙ ap (λ (t : ℕ). shl64 (not64 t) 2) ones
    ∙ shifted
  where
    ones : bit_and (filled p) (not64 (u64 (filled p + 1))) ≡ 2 ^ grow 10 k - 1
    ones = trailing 64 (grow 10 k) (filled p) (omega arith) (Ones-grow 10 54 (field p 9 54) k o)

    shifted : shl64 (not64 (2 ^ grow 10 k - 1)) 2 ≡ 2 ^ 64 - 2 ^ (12 + k)
    shifted =
        at_places (2 ^ grow 10 k) (one-le-pow (grow 10 k) 2 (omega arith)) places
        ∙ omega (arith, power)
      where
        power : 2 ^ (12 + k) ≡ 4 * 2 ^ grow 10 k
        power =
            omega
              (arith, ap (λ (t : ℕ). 2 ^ t) more, pow-succ' 2 (grow 11 k), pow-succ' 2 (grow 10 k))
          where
            more : 12 + k ≡ grow 12 k
            more = omega arith

        places : (2 ^ grow 10 k ≤ 2 ^ 62) ⊎ ((2 ^ grow 10 k ≡ 2 ^ 63) ⊎ (2 ^ grow 10 k ≡ 2 ^ 64))
        places = elim (cases k o.bounded) [
          | inl le ↦ inl (pow-le-pow_right (omega arith) {j = 62} (omega arith))
          | inr (inl e) ↦ inr (inl (ap (λ (t : ℕ). 2 ^ grow 10 t) e))
          | inr (inr e) ↦ inr (inr (ap (λ (t : ℕ). 2 ^ grow 10 t) e))
        ]
          where
            cases : (k : ℕ) → k ≤ 54 → (k ≤ 52) ⊎ ((k ≡ 53) ⊎ (k ≡ 54))
            cases k h = omega arith
