-- ===== src/Instr/Alu.antt =====
-- The operations of instructions on two registers, and the instructions that stand for each.
use nemu.Base.{ℕ, field}
use nemu.Base.{bit_and, bit_or, bit_xor}
use nemu.Rvi.{rtl_setrelop}
use nemu.Rvi.Ops.{lt, ltu}
use nemu.Rvi.Ops
use nemu.Rvm
use nemu.Instr.Ids.{ExecId}
use nemu.Instr.Ids

-- The operations of the architecture on two registers, by the opcode, funct3 and funct7.
pub data Alu : ℕ → ℕ → ℕ → (ℕ → ℕ → ℕ) → Type 0 where
  add : Alu 12 0 0 Ops.c_add
  sub : Alu 12 0 32 Ops.c_sub
  sll : Alu 12 1 0 Ops.c_shl
  slt : Alu 12 2 0 (rtl_setrelop lt)
  sltu : Alu 12 3 0 (rtl_setrelop ltu)
  xor : Alu 12 4 0 bit_xor
  srl : Alu 12 5 0 Ops.c_shr
  sra : Alu 12 5 32 Ops.c_sar
  or : Alu 12 6 0 bit_or
  and : Alu 12 7 0 bit_and
  addw : Alu 14 0 0 Ops.c_addw
  subw : Alu 14 0 32 Ops.c_subw
  sllw : Alu 14 1 0 Ops.c_shlw
  srlw : Alu 14 5 0 Ops.c_shrw
  sraw : Alu 14 5 32 Ops.c_sarw
  mul : Alu 12 0 1 Rvm.mul
  mulh : Alu 12 1 1 Rvm.mulh
  mulhsu : Alu 12 2 1 Rvm.mulhsu
  mulhu : Alu 12 3 1 Rvm.mulhu
  div : Alu 12 4 1 Rvm.div
  divu : Alu 12 5 1 Rvm.divu
  rem : Alu 12 6 1 Rvm.rem
  remu : Alu 12 7 1 Rvm.remu
  mulw : Alu 14 0 1 Rvm.mulw
  divw : Alu 14 4 1 Rvm.divw
  divuw : Alu 14 5 1 Rvm.divuw
  remw : Alu 14 6 1 Rvm.remw
  remuw : Alu 14 7 1 Rvm.remuw

opcode : ℕ → ℕ
opcode w = field w 2 5

-- What the tables find: a shorter form where the destination is the first source.
unfoldable pub short_form : {o f3 f7 : ℕ} {f : ℕ → ℕ → ℕ} → Alu o f3 f7 f → ExecId
short_form add = Ids.c_add
short_form sub = Ids.c_sub
short_form sll = Ids.sll
short_form slt = Ids.slt
short_form sltu = Ids.sltu
short_form xor = Ids.c_xor
short_form srl = Ids.srl
short_form sra = Ids.sra
short_form or = Ids.c_or
short_form and = Ids.c_and
short_form addw = Ids.c_addw
short_form subw = Ids.c_subw
short_form sllw = Ids.sllw
short_form srlw = Ids.srlw
short_form sraw = Ids.sraw
short_form mul = Ids.mul
short_form mulh = Ids.mulh
short_form mulhsu = Ids.mulhsu
short_form mulhu = Ids.mulhu
short_form div = Ids.div
short_form divu = Ids.divu
short_form rem = Ids.rem
short_form remu = Ids.remu
short_form mulw = Ids.mulw
short_form divw = Ids.divw
short_form divuw = Ids.divuw
short_form remw = Ids.remw
short_form remuw = Ids.remuw

unfoldable pub general_form : {o f3 f7 : ℕ} {f : ℕ → ℕ → ℕ} → Alu o f3 f7 f → ExecId
general_form add = Ids.add
general_form sub = Ids.sub
general_form sll = Ids.sll
general_form slt = Ids.slt
general_form sltu = Ids.sltu
general_form xor = Ids.xor
general_form srl = Ids.srl
general_form sra = Ids.sra
general_form or = Ids.or
general_form and = Ids.and
general_form addw = Ids.addw
general_form subw = Ids.subw
general_form sllw = Ids.sllw
general_form srlw = Ids.srlw
general_form sraw = Ids.sraw
general_form mul = Ids.mul
general_form mulh = Ids.mulh
general_form mulhsu = Ids.mulhsu
general_form mulhu = Ids.mulhu
general_form div = Ids.div
general_form divu = Ids.divu
general_form rem = Ids.rem
general_form remu = Ids.remu
general_form mulw = Ids.mulw
general_form divw = Ids.divw
general_form divuw = Ids.divuw
general_form remw = Ids.remw
general_form remuw = Ids.remuw
