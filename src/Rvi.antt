-- ===== src/Rvi.antt =====
-- The integer instructions (isa/riscv64/instr/rvi) on the operations of engine/interpreter: c_op.h,
-- rtl-basic.h and include/rtl/pseudo.h. Operands are register numbers; `pc` is that of the
-- instruction and `snpc` that of the next one.
pub mod Ops
pub mod Memory
pub mod Words
pub mod Calls
pub mod Decode
use nemu.Base.{ℕ, ◌+◌, ◌-◌, ◌*◌, ◌/◌, ◌%◌, ◌^◌, Bool, true, false, not, ◌&&◌, ◌==◌, if◌then◌else◌}
use nemu.Base.{u64, bit_and, bit_or, bit_xor, field}
use nemu.Machine.{Machine, M, ok, pure, panic, get, modify, update, ◌>>=◌, ◌>>◌, and_then}
use nemu.Machine.{write_csr}
use nemu.Machine.Csr
use nemu.Dasics.{dasics_check_trusted}
use nemu.Trap.{mmu_direct, mmu_translate}
use nemu.Vaddr.{vaddr_read, vaddr_write}
use nemu.Rvi.Ops.{Relop, lt, ge, eq, ne, ltu, geu, interpret_relop}
use nemu.Rvi.Ops

-- reg_l of a source.
abbrev pub reg : ℕ → Machine → ℕ
reg r s = s.gpr r

-- A write through the pointer of a destination; that of register 0 points to a variable which nothing
-- reads.
unfoldable pub write_reg : ℕ → ℕ → M (Unit {0})
write_reg rd v s = if rd == 0 then ok tt s else ok tt (record s { gpr = update s.gpr rd v })

-- rtl_<op> and rtl_<op>i.
unfoldable pub rtl_reg : (ℕ → ℕ → ℕ) → ℕ → ℕ → ℕ → M (Unit {0})
rtl_reg op rd rs1 rs2 s = write_reg rd (op (reg rs1 s) (reg rs2 s)) s

unfoldable pub rtl_imm : (ℕ → ℕ → ℕ) → ℕ → ℕ → ℕ → M (Unit {0})
rtl_imm op rd rs1 imm s = write_reg rd (op (reg rs1 s) imm) s

abbrev pub truth_value : Bool → ℕ
truth_value b = if b then 1 else 0

unfoldable pub rtl_setrelop : Relop → ℕ → ℕ → ℕ
rtl_setrelop relop a b = truth_value (interpret_relop relop a b)

-- The instructions of compute.h: two registers, or a register and an immediate.
abbrev pub add : ℕ → ℕ → ℕ → M (Unit {0})
add = rtl_reg Ops.c_add

abbrev pub sub : ℕ → ℕ → ℕ → M (Unit {0})
sub = rtl_reg Ops.c_sub

abbrev pub sll : ℕ → ℕ → ℕ → M (Unit {0})
sll = rtl_reg Ops.c_shl

abbrev pub sra : ℕ → ℕ → ℕ → M (Unit {0})
sra = rtl_reg Ops.c_sar

abbrev pub srl : ℕ → ℕ → ℕ → M (Unit {0})
srl = rtl_reg Ops.c_shr

abbrev pub slt : ℕ → ℕ → ℕ → M (Unit {0})
slt = rtl_reg (rtl_setrelop lt)

abbrev pub sltu : ℕ → ℕ → ℕ → M (Unit {0})
sltu = rtl_reg (rtl_setrelop ltu)

abbrev pub addw : ℕ → ℕ → ℕ → M (Unit {0})
addw = rtl_reg Ops.c_addw

abbrev pub xor : ℕ → ℕ → ℕ → M (Unit {0})
xor = rtl_reg bit_xor

abbrev pub or : ℕ → ℕ → ℕ → M (Unit {0})
or = rtl_reg bit_or

abbrev pub and : ℕ → ℕ → ℕ → M (Unit {0})
and = rtl_reg bit_and

abbrev pub addi : ℕ → ℕ → ℕ → M (Unit {0})
addi = rtl_imm Ops.c_add

abbrev pub slli : ℕ → ℕ → ℕ → M (Unit {0})
slli = rtl_imm Ops.c_shl

abbrev pub srai : ℕ → ℕ → ℕ → M (Unit {0})
srai = rtl_imm Ops.c_sar

abbrev pub srli : ℕ → ℕ → ℕ → M (Unit {0})
srli = rtl_imm Ops.c_shr

abbrev pub slti : ℕ → ℕ → ℕ → M (Unit {0})
slti = rtl_imm (rtl_setrelop lt)

abbrev pub sltui : ℕ → ℕ → ℕ → M (Unit {0})
sltui = rtl_imm (rtl_setrelop ltu)

abbrev pub xori : ℕ → ℕ → ℕ → M (Unit {0})
xori = rtl_imm bit_xor

abbrev pub ori : ℕ → ℕ → ℕ → M (Unit {0})
ori = rtl_imm bit_or

abbrev pub andi : ℕ → ℕ → ℕ → M (Unit {0})
andi = rtl_imm bit_and

abbrev pub auipc : ℕ → ℕ → M (Unit {0})
auipc = write_reg

abbrev pub lui : ℕ → ℕ → M (Unit {0})
lui = write_reg

abbrev pub addiw : ℕ → ℕ → ℕ → M (Unit {0})
addiw = rtl_imm Ops.c_addw

abbrev pub slliw : ℕ → ℕ → ℕ → M (Unit {0})
slliw = rtl_imm Ops.c_shlw

abbrev pub srliw : ℕ → ℕ → ℕ → M (Unit {0})
srliw = rtl_imm Ops.c_shrw

abbrev pub sraiw : ℕ → ℕ → ℕ → M (Unit {0})
sraiw = rtl_imm Ops.c_sarw

abbrev pub subw : ℕ → ℕ → ℕ → M (Unit {0})
subw = rtl_reg Ops.c_subw

abbrev pub sllw : ℕ → ℕ → ℕ → M (Unit {0})
sllw = rtl_reg Ops.c_shlw

abbrev pub srlw : ℕ → ℕ → ℕ → M (Unit {0})
srlw = rtl_reg Ops.c_shrw

abbrev pub sraw : ℕ → ℕ → ℕ → M (Unit {0})
sraw = rtl_reg Ops.c_sarw

-- rtl_j and rtl_jr, without simulation points.
unfoldable pub rtl_j : ℕ → M (Unit {0})
rtl_j target s = ok tt (record s { pc = target })

-- The instructions of control.h.
unfoldable pub jal : ℕ → ℕ → ℕ → M (Unit {0})
jal rd target snpc = write_reg rd snpc >> rtl_j target

-- The target is computed before the link is written, which may go to the same register.
unfoldable pub jalr : ℕ → ℕ → ℕ → ℕ → M (Unit {0})
jalr rd rs1 imm snpc s =
    let target = bit_and (Ops.c_add (reg rs1 s) imm) (2 ^ 64 - 2) in
    (write_reg rd snpc >> rtl_j target) s

-- Only trusted code sets the return address of a call of DASICS.
unfoldable pub rtl_set_dretpc : ℕ → ℕ → M (Unit {0})
rtl_set_dretpc pc value = dasics_check_trusted pc >> write_csr Csr.dretpc value

unfoldable pub dasicscall_j : ℕ → ℕ → ℕ → ℕ → M (Unit {0})
dasicscall_j pc rd target snpc = rtl_set_dretpc pc snpc >> write_reg rd snpc >> rtl_j target

unfoldable pub dasicscall_jr : ℕ → ℕ → ℕ → ℕ → ℕ → M (Unit {0})
dasicscall_jr pc rd rs1 imm snpc s =
    let target = bit_and (Ops.c_add (reg rs1 s) imm) (2 ^ 64 - 2) in
    (rtl_set_dretpc pc snpc >> write_reg rd snpc >> rtl_j target) s

unfoldable pub rtl_jrelop : Relop → ℕ → ℕ → ℕ → ℕ → M (Unit {0})
rtl_jrelop relop rs1 rs2 target snpc s =
    rtl_j (if interpret_relop relop (reg rs1 s) (reg rs2 s) then target else snpc) s

abbrev pub beq : ℕ → ℕ → ℕ → ℕ → M (Unit {0})
beq = rtl_jrelop eq

abbrev pub bne : ℕ → ℕ → ℕ → ℕ → M (Unit {0})
bne = rtl_jrelop ne

abbrev pub blt : ℕ → ℕ → ℕ → ℕ → M (Unit {0})
blt = rtl_jrelop lt

abbrev pub bge : ℕ → ℕ → ℕ → ℕ → M (Unit {0})
bge = rtl_jrelop ge

abbrev pub bltu : ℕ → ℕ → ℕ → ℕ → M (Unit {0})
bltu = rtl_jrelop ltu

abbrev pub bgeu : ℕ → ℕ → ℕ → ℕ → M (Unit {0})
bgeu = rtl_jrelop geu

-- rtl_lm, rtl_sm and rtl_lms of rtl-basic.h, the loads and stores of ldst.h.
unfoldable pub rtl_lm : ℕ → ℕ → ℕ → ℕ → ℕ → ℕ → M (Unit {0})
rtl_lm pc rd rs1 offset len mmu_mode s =
    (vaddr_read pc (u64 (reg rs1 s + offset)) len mmu_mode >>= λ v. write_reg rd v) s

unfoldable pub rtl_sm : ℕ → ℕ → ℕ → ℕ → ℕ → ℕ → M (Unit {0})
rtl_sm pc src rs1 offset len mmu_mode s =
    vaddr_write pc (u64 (reg rs1 s + offset)) len (reg src s) mmu_mode s

-- A value of `len` bytes with its sign.
unfoldable pub sext_len : ℕ → ℕ → ℕ
sext_len len v =
    if field v (8 * len - 1) 1 == 1
    then v % 2 ^ (8 * len) + (2 ^ 64 - 2 ^ (8 * len))
    else v % 2 ^ (8 * len)

unfoldable pub rtl_lms : ℕ → ℕ → ℕ → ℕ → ℕ → ℕ → M (Unit {0})
rtl_lms pc rd rs1 offset len mmu_mode s =
    (vaddr_read pc (u64 (reg rs1 s + offset)) len mmu_mode >>= λ v. write_reg rd (sext_len len v)) s
