-- ===== src/Rvi/Words.antt =====
-- Relations, widths and the operations on lower halves.
use nemu.Base.{ℕ, ◌+◌, ◌-◌, ◌*◌, ◌%◌, ◌^◌, ◌<◌, ◌≡◌, refl, arith, ◌==◌, ◌!=◌}
use nemu.Base.{true, not, ltb, leb, inl, inr, ◌⊎◌, u64, u32, bit_xor}
use nemu.Memory.Host.{is_access_len}
use nemu.Rvm.{c_sext32to64}
use nemu.Rvi.{sext_len}
use nemu.Rvi.Ops.{
  Relop, never, always, eq, ne, lt, ge, le, gt, ltu, geu, leu, gtu, biased, relop_code,
  interpret_relop, c_shl, c_shr, c_sar, c_addw, c_subw, c_shlw, c_shrw, c_sarw, rtl_sext, rtl_zext,
}

-- The relation with the other last bit.
abbrev pub inverse : Relop → Relop
inverse never = always
inverse always = never
inverse eq = ne
inverse ne = eq
inverse lt = ge
inverse ge = lt
inverse le = gt
inverse gt = le
inverse ltu = geu
inverse geu = ltu
inverse leu = gtu
inverse gtu = leu

ltb-leb : (a b : ℕ) → ltb a b ≡ not (leb b a)
ltb-leb a b = ground arith

leb-ltb : (a b : ℕ) → leb b a ≡ not (ltb a b)
leb-ltb a b = ground arith

ne_lem : (a b : ℕ) → (a != b) ≡ not (a == b)
ne_lem a b = ground arith

same_ne : (a b : ℕ) → (a == b) ≡ not (a != b)
same_ne a b = ground arith

-- The last bit of the number of a relation inverts it, for all twelve.
pub interpret_relop-inverse :
    (r : Relop) (a b : ℕ)
    → (relop_code (inverse r) ≡ bit_xor (relop_code r) 1)
      × (interpret_relop (inverse r) a b ≡ not (interpret_relop r a b))
unfolding relop_code interpret_relop
interpret_relop-inverse never a b = (refl, refl)
interpret_relop-inverse always a b = (refl, refl)
interpret_relop-inverse eq a b = (refl, ne_lem a b)
interpret_relop-inverse ne a b = (refl, same_ne a b)
interpret_relop-inverse lt a b = (refl, leb-ltb (biased a) (biased b))
interpret_relop-inverse ge a b = (refl, ltb-leb (biased a) (biased b))
interpret_relop-inverse le a b = (refl, ltb-leb (biased b) (biased a))
interpret_relop-inverse gt a b = (refl, leb-ltb (biased b) (biased a))
interpret_relop-inverse ltu a b = (refl, leb-ltb a b)
interpret_relop-inverse geu a b = (refl, ltb-leb a b)
interpret_relop-inverse leu a b = (refl, ltb-leb b a)
interpret_relop-inverse gtu a b = (refl, leb-ltb b a)

low_twice : (a : ℕ) → u32 (u32 a) ≡ u32 a
low_twice a = omega arith

low_shift : (b : ℕ) → u32 b % 32 ≡ b % 32
low_shift b = omega arith

low_add : (a b : ℕ) → u32 (u64 (a + b)) ≡ u32 (u64 (u32 a + u32 b))
low_add a b = omega arith

low_sub :
    (a b : ℕ) → b < 2 ^ 64 → u32 (u64 (a + (2 ^ 64 - b))) ≡ u32 (u64 (u32 a + (2 ^ 64 - u32 b)))
low_sub a b h = omega arith

-- For words, the operations on lower halves do not depend on the upper ones, shifts by a register
-- included.
pub low_halves :
    (a b : ℕ)
    → b < 2 ^ 64
    → (c_addw a b ≡ c_addw (u32 a) (u32 b))
      × (c_subw a b ≡ c_subw (u32 a) (u32 b))
      × (c_shlw a b ≡ c_shlw (u32 a) (u32 b))
      × (c_shrw a b ≡ c_shrw (u32 a) (u32 b))
      × (c_sarw a b ≡ c_sarw (u32 a) (u32 b))
unfolding c_addw c_subw c_shlw c_shrw c_sarw c_sext32to64
low_halves a b h = (
  rw (low_add a b) refl,
  rw (low_sub a b h) refl,
  rw (low_twice a, low_shift b) refl,
  rw (low_twice a, low_shift b) refl,
  rw (low_twice a, low_shift b) refl,
)

len_cases : (len : ℕ) → is_access_len len ≡ true → (len ≡ 1) ⊎ ((len ≡ 2) ⊎ ((len ≡ 4) ⊎ (len ≡ 8)))
len_cases len h = ground arith

-- Of a word, the shifts up and down by which a value is extended give what a load of that width gives.
pub rtl_sext-sext_len :
    (width a : ℕ)
    → is_access_len width ≡ true
    → a < 2 ^ 64
    → (rtl_sext width a ≡ sext_len width a) × (rtl_zext width a ≡ a % 2 ^ (8 * width))
unfolding rtl_sext rtl_zext c_shl c_shr c_sar sext_len
rtl_sext-sext_len width a l h = elim (len_cases width l) [
  | inl e ↦ rw e (ground arith, omega arith)
  | inr (inl e) ↦ rw e (ground arith, omega arith)
  | inr (inr (inl e)) ↦ rw e (ground arith, omega arith)
  | inr (inr (inr e)) ↦ rw e (ground arith, omega arith)
]
