-- ===== src/Rvc.antt =====
-- The compressed instructions (isa/riscv64/instr/rvc/exec.h) and the shortened forms of other instructions
-- (isa/riscv64/instr/pseudo.h). Where the destination is also a source, the code reads it through the
-- destination's pointer; for register 0 that reads a variable whose value goes nowhere.
pub mod Decode
pub mod Immediates
use nemu.Base.{ℕ, ◌+◌, ◌-◌, ◌*◌, ◌/◌, ◌%◌, ◌^◌, bit_and, bit_or, bit_xor}
use nemu.Machine.{Machine, M, ok, ◌>>=◌, ◌>>◌, and_then}
use nemu.Rvi.{reg, write_reg, rtl_reg, rtl_imm, rtl_j, rtl_jrelop}
use nemu.Rvi.Ops.{Relop, lt, ge, eq, ne}
use nemu.Rvi.Ops

-- rtl_jr.
unfoldable pub rtl_jr : ℕ → M (Unit {0})
rtl_jr r s = rtl_j (reg r s) s

abbrev pub c_j : ℕ → M (Unit {0})
c_j = rtl_j

-- Less the check of DASICS, which does nothing, and without CONFIG_SHARE: the target is the register as it
-- is.
abbrev pub c_jr : ℕ → M (Unit {0})
c_jr = rtl_jr

unfoldable pub c_jalr : ℕ → ℕ → M (Unit {0})
c_jalr rs1 snpc = write_reg 1 snpc >> rtl_jr rs1

abbrev pub c_beqz : ℕ → ℕ → ℕ → M (Unit {0})
c_beqz rs1 target snpc = rtl_jrelop eq rs1 0 target snpc

abbrev pub c_bnez : ℕ → ℕ → ℕ → M (Unit {0})
c_bnez rs1 target snpc = rtl_jrelop ne rs1 0 target snpc

abbrev pub c_li : ℕ → ℕ → M (Unit {0})
c_li = write_reg

abbrev pub c_addi : ℕ → ℕ → M (Unit {0})
c_addi rd imm = rtl_imm Ops.c_add rd rd imm

abbrev pub c_addiw : ℕ → ℕ → M (Unit {0})
c_addiw rd imm = rtl_imm Ops.c_addw rd rd imm

abbrev pub c_slli : ℕ → ℕ → M (Unit {0})
c_slli rd imm = rtl_imm Ops.c_shl rd rd imm

abbrev pub c_srli : ℕ → ℕ → M (Unit {0})
c_srli rd imm = rtl_imm Ops.c_shr rd rd imm

abbrev pub c_srai : ℕ → ℕ → M (Unit {0})
c_srai rd imm = rtl_imm Ops.c_sar rd rd imm

abbrev pub c_andi : ℕ → ℕ → M (Unit {0})
c_andi rd imm = rtl_imm bit_and rd rd imm

abbrev pub c_mv : ℕ → ℕ → M (Unit {0})
c_mv rd rs1 s = write_reg rd (reg rs1 s) s

abbrev pub c_add : ℕ → ℕ → M (Unit {0})
c_add rd rs2 = rtl_reg Ops.c_add rd rd rs2

abbrev pub c_and : ℕ → ℕ → M (Unit {0})
c_and rd rs2 = rtl_reg bit_and rd rd rs2

abbrev pub c_or : ℕ → ℕ → M (Unit {0})
c_or rd rs2 = rtl_reg bit_or rd rd rs2

abbrev pub c_xor : ℕ → ℕ → M (Unit {0})
c_xor rd rs2 = rtl_reg bit_xor rd rd rs2

abbrev pub c_sub : ℕ → ℕ → M (Unit {0})
c_sub rd rs2 = rtl_reg Ops.c_sub rd rd rs2

abbrev pub c_addw : ℕ → ℕ → M (Unit {0})
c_addw rd rs2 = rtl_reg Ops.c_addw rd rd rs2

abbrev pub c_subw : ℕ → ℕ → M (Unit {0})
c_subw rd rs2 = rtl_reg Ops.c_subw rd rd rs2

-- The shortened forms.
abbrev pub p_sext_w : ℕ → ℕ → M (Unit {0})
p_sext_w rd rs1 = rtl_imm Ops.c_addw rd rs1 0

abbrev pub p_blez : ℕ → ℕ → ℕ → M (Unit {0})
p_blez rs2 target snpc = rtl_jrelop ge 0 rs2 target snpc

abbrev pub p_bgtz : ℕ → ℕ → ℕ → M (Unit {0})
p_bgtz rs2 target snpc = rtl_jrelop lt 0 rs2 target snpc

abbrev pub p_bltz : ℕ → ℕ → ℕ → M (Unit {0})
p_bltz rs1 target snpc = rtl_jrelop lt rs1 0 target snpc

abbrev pub p_bgez : ℕ → ℕ → ℕ → M (Unit {0})
p_bgez rs1 target snpc = rtl_jrelop ge rs1 0 target snpc

unfoldable pub p_jal : ℕ → ℕ → M (Unit {0})
p_jal target snpc = write_reg 1 snpc >> rtl_j target

abbrev pub p_ret : M (Unit {0})
p_ret = rtl_jr 1

abbrev pub p_li_0 : ℕ → M (Unit {0})
p_li_0 rd = write_reg rd 0

abbrev pub p_li_1 : ℕ → M (Unit {0})
p_li_1 rd = write_reg rd 1

abbrev pub p_inc : ℕ → M (Unit {0})
p_inc rd = rtl_imm Ops.c_add rd rd 1

-- rtl_subi.
abbrev pub p_dec : ℕ → M (Unit {0})
p_dec rd = rtl_imm Ops.c_sub rd rd 1
