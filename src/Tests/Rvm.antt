-- ===== src/Tests/Rvm.antt =====
-- Tests of the multiply and divide instructions.
use nemu.Base.{ℕ, ◌≡◌, refl, arith, ◌⊎◌, ◌-◌, ◌^◌}
use nemu.Rvm.{div, rem, remw, c_sext32to64, c_divs_q, c_divs_r}
use nemu.Rvm.Divide.{Truncates, div-rem}
use nemu.Rvm.Word.{remw-rem}

abbrev hundred : ℕ
hundred = 100

abbrev minus_hundred : ℕ
minus_hundred = 2 ^ 64 - 100

abbrev seven : ℕ
seven = 7

div-rem_example :
    ((seven ≡ 0)
      × (div minus_hundred seven ≡ 2 ^ 64 - 1)
      × (rem minus_hundred seven ≡ minus_hundred))
    ⊎ Truncates minus_hundred seven (div minus_hundred seven) (rem minus_hundred seven)
div-rem_example = div-rem minus_hundred seven (omega arith) (omega arith)

-- The quotient of minus 100 by 7 is minus 14, and the remainder is minus 2.
div-minus_hundred : (div minus_hundred seven ≡ 2 ^ 64 - 14) × (rem minus_hundred seven ≡ 2 ^ 64 - 2)
unfolding div rem c_divs_q c_divs_r
div-minus_hundred = (refl, refl)

remw-rem_example :
    remw 0x80000000 0xffffffff
    ≡ c_sext32to64 (rem (c_sext32to64 0x80000000) (c_sext32to64 0xffffffff))
remw-rem_example = remw-rem 0x80000000 0xffffffff
