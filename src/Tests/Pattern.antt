-- ===== src/Tests/Pattern.antt =====
-- A test of the patterns of instructions.
use nemu.Base.{ℕ, ◌≡◌, refl, arith, some, []}
use nemu.Expr.Text.{codes}
use nemu.Pattern.{Pattern, pattern_decode, is_instr}
use nemu.Pattern.Matches.{agrees, reverse_onto, bits, are_valid, pattern_decode-agrees}

-- The pattern of addw.
pattern_decode-agrees_example :
    (p : Pattern) × (pattern_decode (codes "0000000 ????? ????? 000 ????? ????? ??") ≡ some p)
    × ((instr : ℕ)
        → is_instr p instr
          ≡ agrees (reverse_onto (codes "0000000 ????? ????? 000 ????? ????? ??") []) instr)
unfolding bits are_valid
pattern_decode-agrees_example =
    pattern_decode-agrees (codes "0000000 ????? ????? 000 ????? ????? ??") (omega arith)
      (omega arith) refl
