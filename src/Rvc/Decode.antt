-- ===== src/Rvc/Decode.antt =====
-- The operands of the compressed instructions (isa/riscv64/instr/rvc/decode.h). An operand that a helper
-- leaves as it was is 0 here: no instruction of its format reads it.
use nemu.Base.{
  ℕ, ◌+◌, ◌-◌, ◌*◌, ◌%◌, ◌^◌, Bool, true, false, ◌==◌, if◌then◌else◌, u32, u64, bit_and,
}
use nemu.Base.{bit_or, shl64, field, Option, none, some}
use nemu.Rvi.Decode.{Operands}

abbrev pub creg2reg : ℕ → ℕ
creg2reg creg = creg + 8

-- SEXT of include/macro.h.
abbrev pub sext : ℕ → ℕ → ℕ
sext x len = if field x (len - 1) 1 == 1 then x % 2 ^ len + (2 ^ 64 - 2 ^ len) else x % 2 ^ len

-- A rotation whose upper part is not moved back.
unfoldable pub ror_imm : ℕ → ℕ → ℕ → ℕ
ror_imm imm len r =
    if r == 0 then imm else bit_and (bit_or imm (u32 (imm * 2 ^ len))) (u32 ((2 ^ len - 1) * 2 ^ r))

unfoldable pub c_imm6 : ℕ → Bool → ℕ → ℕ → ℕ
c_imm6 imm6 sign shift rotate = if sign then shl64 (sext imm6 6) shift else ror_imm imm6 6 rotate

-- Bit 12 and bits 6 to 2.
abbrev pub imm6_of : ℕ → ℕ
imm6_of w = bit_or (field w 12 1 * 2 ^ 5) (field w 2 5)

abbrev pub rd_rs1 : Bool → ℕ → ℕ
rd_rs1 creg w = if creg then creg2reg (field w 7 3) else field w 7 5

abbrev pub rd_rs1_imm6 : (sign : Bool) (shift rotate : ℕ) (creg : Bool) → ℕ → Operands
rd_rs1_imm6 sign shift rotate creg w = record {
  src1 = rd_rs1 creg w;
  src2 = c_imm6 (imm6_of w) sign shift rotate;
  dest = rd_rs1 creg w;
}

unfoldable pub ci_simm : ℕ → Operands
ci_simm w = rd_rs1_imm6 true 0 0 false w

-- The immediate of LUI is in the place of the first source.
unfoldable pub ci_simm_lui : ℕ → Operands
ci_simm_lui w = let o = ci_simm w in record o { src1 = shl64 o.src2 12 }

unfoldable pub ci_uimm : ℕ → Operands
ci_uimm w = rd_rs1_imm6 false 0 0 false w

unfoldable pub c_li : ℕ → Operands
c_li w = let o = ci_simm w in record o { src1 = 0 }

unfoldable pub addi16sp_imm : ℕ → ℕ
addi16sp_imm w =
    bit_or
      (bit_or
        (bit_or (bit_or (shl64 (sext (field w 12 1) 1) 9) (field w 3 2 * 2 ^ 7))
          (field w 5 1 * 2 ^ 6))
        (field w 2 1 * 2 ^ 5))
      (field w 6 1 * 2 ^ 4)

-- `none` is the failed assertion.
unfoldable pub c_addi16sp : ℕ → Option Operands
c_addi16sp w =
    if addi16sp_imm w == 0
    then none
    else some (record { src1 = 2; src2 = addi16sp_imm w; dest = 2 })

-- Loads and stores relative to the stack pointer.
abbrev pub c_xxsp : (imm6 rotate dest : ℕ) → Operands
c_xxsp imm6 rotate dest = record { src1 = 2; src2 = c_imm6 imm6 false 0 rotate; dest = dest }

abbrev pub c_lxsp : ℕ → ℕ → Operands
c_lxsp rotate w = c_xxsp (imm6_of w) rotate (field w 7 5)

unfoldable pub c_lwsp : ℕ → Operands
c_lwsp w = c_lxsp 2 w

unfoldable pub c_ldsp : ℕ → Operands
c_ldsp w = c_lxsp 3 w

abbrev pub c_fldsp : ℕ → Operands
c_fldsp = c_ldsp

abbrev pub c_sxsp : ℕ → ℕ → Operands
c_sxsp rotate w = c_xxsp (field w 7 6) rotate (field w 2 5)

unfoldable pub c_swsp : ℕ → Operands
c_swsp w = c_sxsp 2 w

unfoldable pub c_sdsp : ℕ → Operands
c_sdsp w = c_sxsp 3 w

abbrev pub c_fsdsp : ℕ → Operands
c_fsdsp = c_sdsp

unfoldable pub addi4spn_imm : ℕ → ℕ
addi4spn_imm w =
    bit_or (bit_or (ror_imm (field w 7 6) 6 4) (field w 5 1 * 2 ^ 3)) (field w 6 1 * 2 ^ 2)

unfoldable pub c_addi4spn : ℕ → Option Operands
c_addi4spn w =
    if addi4spn_imm w == 0
    then none
    else some (record { src1 = 2; src2 = addi4spn_imm w; dest = creg2reg (field w 2 3) })

-- Loads and stores with two registers of three bits.
abbrev pub imm5_of : ℕ → ℕ
imm5_of w = bit_or (field w 10 3 * 2 ^ 2) (field w 5 2)

abbrev pub c_ldst_common : ℕ → ℕ → Operands
c_ldst_common rotate w = record {
  src1 = creg2reg (field w 7 3);
  src2 = u32 (ror_imm (imm5_of w) 5 rotate * 2);
  dest = creg2reg (field w 2 3);
}

unfoldable pub c_lw : ℕ → Operands
c_lw w = c_ldst_common 1 w

unfoldable pub c_ld : ℕ → Operands
c_ld w = c_ldst_common 2 w

abbrev pub c_fld : ℕ → Operands
c_fld = c_ld

abbrev pub c_sw : ℕ → Operands
c_sw = c_lw

abbrev pub c_sd : ℕ → Operands
c_sd = c_ld

abbrev pub c_fsd : ℕ → Operands
c_fsd = c_ld

unfoldable pub cs : ℕ → Operands
cs w = record { src1 = rd_rs1 true w; src2 = creg2reg (field w 2 3); dest = rd_rs1 true w }

unfoldable pub offset_cb : ℕ → ℕ
offset_cb w =
    bit_or
      (bit_or
        (bit_or (bit_or (shl64 (sext (field w 12 1) 1) 8) (field w 5 2 * 2 ^ 6))
          (field w 2 1 * 2 ^ 5))
        (field w 10 2 * 2 ^ 3))
      (field w 3 2 * 2)

unfoldable pub cb : ℕ → ℕ → Operands
cb pc w = record { src1 = creg2reg (field w 7 3); src2 = 0; dest = u64 (pc + offset_cb w) }

unfoldable pub cb_shift : ℕ → Operands
cb_shift w = rd_rs1_imm6 false 0 0 true w

unfoldable pub cb_andi : ℕ → Operands
cb_andi w = rd_rs1_imm6 true 0 0 true w

unfoldable pub offset_cj : ℕ → ℕ
offset_cj w =
    let high = bit_or (shl64 (sext (field w 12 1) 1) 11) (field w 8 1 * 2 ^ 10) in
    let upper = bit_or (bit_or high (field w 9 2 * 2 ^ 8)) (field w 6 1 * 2 ^ 7) in
    let lower = bit_or (bit_or upper (field w 7 1 * 2 ^ 6)) (field w 2 1 * 2 ^ 5) in
    bit_or (bit_or lower (field w 11 1 * 2 ^ 4)) (field w 3 3 * 2)

unfoldable pub cj : ℕ → ℕ → Operands
cj pc w = record { src1 = u64 (pc + offset_cj w); src2 = 0; dest = 0 }

unfoldable pub c_jr : ℕ → Operands
c_jr w = record { src1 = field w 7 5; src2 = 0; dest = 0 }

-- The source is in the place of the first one.
unfoldable pub c_mov : ℕ → Operands
c_mov w = record { src1 = field w 2 5; src2 = 0; dest = field w 7 5 }

unfoldable pub c_add : ℕ → Operands
c_add w = record { src1 = field w 7 5; src2 = field w 2 5; dest = field w 7 5 }

unfoldable pub c_jalr : ℕ → Operands
c_jalr w = record { src1 = field w 7 5; src2 = 0; dest = 1 }
