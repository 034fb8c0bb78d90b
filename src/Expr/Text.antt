-- ===== src/Expr/Text.antt =====
-- Text as lists of bytes: strtoul, and the names of the registers (isa/riscv64/reg.c).
use Prim.Native.Char.{code}
use Prim.Native.String.{String}
use nemu.Base.{ℕ, ◌+◌, ◌-◌, ◌*◌, ◌^◌, Bool, true, false, ◌&&◌, ◌||◌, ltb, leb, min}
use nemu.Base.{◌==◌, if◌then◌else◌, Option, none, some, List, [], ◌∷◌, drop}
use nemu.Machine.{Machine}

abbrev pub codes : String → List ℕ
codes String.[] = []
codes (String.◌∷◌ c s) = code c ∷ codes s

-- strcmp(a, b) == 0.
unfoldable pub str_eq : List ℕ → List ℕ → Bool
str_eq [] [] = true
str_eq [] (y ∷ ys) = false
str_eq (x ∷ xs) [] = false
str_eq (x ∷ xs) (y ∷ ys) = (x == y) && str_eq xs ys

abbrev pub is_digit : ℕ → Bool
is_digit c = leb b'0' c && leb c b'9'

abbrev pub is_hex : ℕ → Bool
is_hex c = is_digit c || ((leb b'a' c && leb c b'f') || (leb b'A' c && leb c b'F'))

-- The value of a digit, 36 for any other byte.
unfoldable pub digit_value : ℕ → ℕ
digit_value c =
    if is_digit c
    then c - b'0'
    else if leb b'a' c && leb c b'z'
    then c - b'a' + 10
    else (if leb b'A' c && leb c b'Z' then c - b'A' + 10 else 36)

-- The digits of a base, up to the first byte that is none.
unfoldable pub digits_value : ℕ → ℕ → List ℕ → ℕ
digits_value base acc [] = acc
digits_value base acc (c ∷ cs) =
    let rest = digits_value base (acc * base + digit_value c) cs in
    if ltb (digit_value c) base then rest else acc

abbrev starts_hex : List ℕ → Bool
starts_hex (z ∷ x ∷ cs) = (z == b'0') && ((x == b'x') || (x == b'X'))
starts_hex _ = false

abbrev starts_zero : List ℕ → Bool
starts_zero (z ∷ cs) = z == b'0'
starts_zero [] = false

-- strtoul(s, NULL, 0) of a text that starts with a digit; what does not fit gives ULONG_MAX.
unfoldable pub strtoul : List ℕ → ℕ
strtoul s = min (2 ^ 64 - 1) (
    if starts_hex s
    then digits_value 16 0 (drop 2 s)
    else (if starts_zero s then digits_value 8 0 s else digits_value 10 0 s))

abbrev pub regsl : List (List ℕ)
regsl =
    codes "$0"
    ∷ codes "ra"
    ∷ codes "sp"
    ∷ codes "gp"
    ∷ codes "tp"
    ∷ codes "t0"
    ∷ codes "t1"
    ∷ codes "t2"
    ∷ codes "s0"
    ∷ codes "s1"
    ∷ codes "a0"
    ∷ codes "a1"
    ∷ codes "a2"
    ∷ codes "a3"
    ∷ codes "a4"
    ∷ codes "a5"
    ∷ codes "a6"
    ∷ codes "a7"
    ∷ codes "s2"
    ∷ codes "s3"
    ∷ codes "s4"
    ∷ codes "s5"
    ∷ codes "s6"
    ∷ codes "s7"
    ∷ codes "s8"
    ∷ codes "s9"
    ∷ codes "s10"
    ∷ codes "s11"
    ∷ codes "t3"
    ∷ codes "t4"
    ∷ codes "t5"
    ∷ codes "t6"
    ∷ []

-- The loop over the names, from the register `i` on.
unfoldable pub find_reg : List (List ℕ) → ℕ → List ℕ → Option ℕ
find_reg [] i s = none
find_reg (name ∷ names) i s =
    let rest = find_reg names (i + 1) s in if str_eq name s then some i else rest

-- `none` is `*success = false`.
unfoldable pub isa_reg_str2val : List ℕ → Machine → Option ℕ
isa_reg_str2val s m = elim (find_reg regsl 0 s) [
  | some i ↦ some (m.gpr i)
  | none ↦ (if str_eq (codes "pc") s then some m.pc else none)
]
