-- ===== src/Rvm.antt =====
-- The multiply and divide instructions (isa/riscv64/instr/rvm/exec.h) on the operations of
-- engine/interpreter/c_op.h: what the destination register receives.
pub mod Multiply
pub mod Divide
pub mod Word
use nemu.Base.{ℕ, ◌+◌, ◌-◌, ◌*◌, ◌/◌, ◌%◌, ◌^◌, Bool, true, false, not, ◌&&◌, ltb, ◌==◌, ◌!=◌}
use nemu.Base.{if◌then◌else◌, u64, u32, bit_and, shr}

-- A word as a signed number: whether it is negative, its absolute value, and back.
abbrev pub is_neg : ℕ → Bool
is_neg a = not (ltb a (2 ^ 63))

abbrev pub abs64 : ℕ → ℕ
abs64 a = if is_neg a then 2 ^ 64 - a else a

abbrev pub with_sign : Bool → ℕ → ℕ
with_sign negative m = if negative then u64 (2 ^ 64 - m) else m

abbrev pub differ : Bool → Bool → Bool
differ true b = not b
differ false b = b

unfoldable pub c_sub : ℕ → ℕ → ℕ
c_sub a b = u64 (a + (2 ^ 64 - b))

-- A shift by 63 of a signed word.
unfoldable pub c_sar63 : ℕ → ℕ
c_sar63 a = if is_neg a then 2 ^ 64 - 1 else 0

unfoldable pub c_sext32to64 : ℕ → ℕ
c_sext32to64 a = if ltb (u32 a) (2 ^ 31) then u32 a else u32 a + (2 ^ 64 - 2 ^ 32)

unfoldable pub c_mulu_lo : ℕ → ℕ → ℕ
c_mulu_lo a b = u64 (a * b)

unfoldable pub c_mulu_hi : ℕ → ℕ → ℕ
c_mulu_hi a b = a * b / 2 ^ 64

-- The upper half of the product of two signed words, which is shifted arithmetically.
unfoldable pub c_muls_hi : ℕ → ℕ → ℕ
c_muls_hi a b =
    let m = abs64 a * abs64 b in
    if differ (is_neg a) (is_neg b) then (2 ^ 128 - m) % 2 ^ 128 / 2 ^ 64 else m / 2 ^ 64

-- Division of signed words truncates, and the remainder takes the sign of the dividend; the callers
-- leave out a divisor of zero and the quotient that does not fit.
unfoldable pub c_divs_q : ℕ → ℕ → ℕ
c_divs_q a b = with_sign (differ (is_neg a) (is_neg b)) (abs64 a / abs64 b)

unfoldable pub c_divs_r : ℕ → ℕ → ℕ
c_divs_r a b = with_sign (is_neg a) (abs64 a % abs64 b)

unfoldable pub mul : ℕ → ℕ → ℕ
mul a b = c_mulu_lo a b

unfoldable pub mulh : ℕ → ℕ → ℕ
mulh a b = c_muls_hi a b

unfoldable pub mulhu : ℕ → ℕ → ℕ
mulhu a b = c_mulu_hi a b

unfoldable pub mulhsu : ℕ → ℕ → ℕ
mulhsu a b = let s0 = c_sar63 a in let s0 = bit_and b s0 in let s1 = c_mulu_hi a b in c_sub s1 s0

abbrev pub int_min : ℕ
int_min = 2 ^ 63

unfoldable pub div : ℕ → ℕ → ℕ
div a b =
    if b == 0 then 2 ^ 64 - 1 else if (a == int_min) && (b == 2 ^ 64 - 1) then a else c_divs_q a b

unfoldable pub divu : ℕ → ℕ → ℕ
divu a b = if b == 0 then 2 ^ 64 - 1 else a / b

unfoldable pub rem : ℕ → ℕ → ℕ
rem a b = if b == 0 then a else if (a == int_min) && (b == 2 ^ 64 - 1) then 0 else c_divs_r a b

unfoldable pub remu : ℕ → ℕ → ℕ
remu a b = if b == 0 then a else a % b

unfoldable pub mulw : ℕ → ℕ → ℕ
mulw a b = c_sext32to64 (a * b)

-- The guard against an overflow compares the sign-extended dividend with 0x80000000.
unfoldable pub divw : ℕ → ℕ → ℕ
divw a b =
    let s0 = c_sext32to64 a in
    let s1 = c_sext32to64 b in
    c_sext32to64 (
      if s1 == 0
      then 2 ^ 64 - 1
      else (if (s0 == 0x80000000) && (s1 == 2 ^ 64 - 1) then s0 else c_divs_q s0 s1))

unfoldable pub remw : ℕ → ℕ → ℕ
remw a b =
    let s0 = c_sext32to64 a in
    let s1 = c_sext32to64 b in
    c_sext32to64 (
      if s1 == 0
      then s0
      else (if (s0 == 0x80000000) && (s1 == 2 ^ 64 - 1) then 0 else c_divs_r s0 s1))

unfoldable pub divuw : ℕ → ℕ → ℕ
divuw a b = c_sext32to64 (if u32 b == 0 then 2 ^ 64 - 1 else u32 a / u32 b)

unfoldable pub remuw : ℕ → ℕ → ℕ
remuw a b = c_sext32to64 (if u32 b == 0 then u32 a else u32 a % u32 b)
