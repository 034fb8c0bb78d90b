-- ===== src/Rvi/Ops.antt =====
-- The operations on words (engine/interpreter/c_op.h, include/rtl/rtl.h, include/rtl/pseudo.h).
use nemu.Base.{ℕ, ◌+◌, ◌-◌, ◌*◌, ◌/◌, ◌%◌, ◌^◌, Bool, true, false, ltb, leb, ◌==◌, ◌!=◌}
use nemu.Base.{if◌then◌else◌, u64, u32}
use nemu.Rvm.{c_sext32to64}

-- The relations of rtl.h, less the panic for any other number.
pub data Relop : Type 0 where
  never always eq ne lt le gt ge ltu leu gtu geu : Relop

-- The numbers of the relations: an order without or with sign, equality, and inversion.
unfoldable pub relop_code : Relop → ℕ
relop_code never = 0
relop_code always = 1
relop_code eq = 2
relop_code ne = 3
relop_code lt = 4
relop_code ge = 5
relop_code le = 6
relop_code gt = 7
relop_code ltu = 8
relop_code geu = 9
relop_code leu = 10
relop_code gtu = 11

-- A word as a signed number, moved up by 2 ^ 63.
abbrev pub biased : ℕ → ℕ
biased a = (a + 2 ^ 63) % 2 ^ 64

unfoldable pub interpret_relop : Relop → ℕ → ℕ → Bool
interpret_relop never a b = false
interpret_relop always a b = true
interpret_relop eq a b = a == b
interpret_relop ne a b = a != b
interpret_relop lt a b = ltb (biased a) (biased b)
interpret_relop le a b = leb (biased a) (biased b)
interpret_relop gt a b = ltb (biased b) (biased a)
interpret_relop ge a b = leb (biased b) (biased a)
interpret_relop ltu a b = ltb a b
interpret_relop leu a b = leb a b
interpret_relop gtu a b = ltb b a
interpret_relop geu a b = leb b a

unfoldable pub c_add : ℕ → ℕ → ℕ
c_add a b = u64 (a + b)

unfoldable pub c_sub : ℕ → ℕ → ℕ
c_sub a b = u64 (a + (2 ^ 64 - b))

abbrev pub c_shift_mask : ℕ
c_shift_mask = 64

unfoldable pub c_shl : ℕ → ℕ → ℕ
c_shl a b = u64 (a * 2 ^ (b % c_shift_mask))

unfoldable pub c_shr : ℕ → ℕ → ℕ
c_shr a b = a / 2 ^ (b % c_shift_mask)

-- The sign fills the upper bits.
unfoldable pub c_sar : ℕ → ℕ → ℕ
c_sar a b =
    let k = b % c_shift_mask in
    if leb (2 ^ 63) a then a / 2 ^ k + (2 ^ 64 - 2 ^ (64 - k)) else a / 2 ^ k

unfoldable pub c_addw : ℕ → ℕ → ℕ
c_addw a b = c_sext32to64 (u64 (a + b))

unfoldable pub c_subw : ℕ → ℕ → ℕ
c_subw a b = c_sext32to64 (u64 (a + (2 ^ 64 - b)))

unfoldable pub c_shlw : ℕ → ℕ → ℕ
c_shlw a b = c_sext32to64 (u32 (u32 a * 2 ^ (b % 32)))

unfoldable pub c_shrw : ℕ → ℕ → ℕ
c_shrw a b = c_sext32to64 (u32 a / 2 ^ (b % 32))

unfoldable pub c_sarw : ℕ → ℕ → ℕ
c_sarw a b =
    let k = b % 32 in
    c_sext32to64
      (if leb (2 ^ 31) (u32 a) then u32 a / 2 ^ k + (2 ^ 32 - 2 ^ (32 - k)) else u32 a / 2 ^ k)

-- rtl_sext and rtl_zext: a shift up and a shift down.
unfoldable pub rtl_sext : ℕ → ℕ → ℕ
rtl_sext width a = if width == 8 then a else c_sar (c_shl a ((8 - width) * 8)) ((8 - width) * 8)

unfoldable pub rtl_zext : ℕ → ℕ → ℕ
rtl_zext width a = if width == 8 then a else c_shr (c_shl a ((8 - width) * 8)) ((8 - width) * 8)
