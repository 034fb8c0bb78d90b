-- ===== src/Instr/Exec.antt =====
-- The execution of a decoded instruction (def_EHelper of isa/riscv64/instr): what each identifier stands for.
-- The instructions for bit manipulation, cryptography and floating point, fence_i and nemu_trap are a
-- parameter.
use nemu.Base.{Option, none, some}
use nemu.Machine.{M, ok, panic, longjmp_exception}
use nemu.Machine.Csr
use nemu.Trap.{mmu_direct, mmu_translate}
use nemu.Rvi.Decode.{funct3, funct7}
use nemu.Rvi.{rtl_reg, rtl_lm, rtl_lms, rtl_sm, reg}
use nemu.Rvi
use nemu.Rvm
use nemu.Rvc
use nemu.Rva.{amo_slow_path}
use nemu.Priv.System as System
use nemu.Instr.{Decode, Found}
use nemu.Instr.Ids.{ExecId}
use nemu.Instr.Ids

unfoldable pub exec : (ExecId → Decode → M (Unit {0})) → ExecId → Decode → M (Unit {0})
exec other Ids.inv d = panic
exec other Ids.rt_inv d = longjmp_exception Csr.ex_ii
exec other Ids.lb d = rtl_lms d.pc d.operands.dest d.operands.src1 d.operands.src2 1 mmu_direct
exec other Ids.lh d = rtl_lms d.pc d.operands.dest d.operands.src1 d.operands.src2 2 mmu_direct
exec other Ids.lw d = rtl_lms d.pc d.operands.dest d.operands.src1 d.operands.src2 4 mmu_direct
exec other Ids.ld d = rtl_lms d.pc d.operands.dest d.operands.src1 d.operands.src2 8 mmu_direct
exec other Ids.lbu d = rtl_lm d.pc d.operands.dest d.operands.src1 d.operands.src2 1 mmu_direct
exec other Ids.lhu d = rtl_lm d.pc d.operands.dest d.operands.src1 d.operands.src2 2 mmu_direct
exec other Ids.lwu d = rtl_lm d.pc d.operands.dest d.operands.src1 d.operands.src2 4 mmu_direct
exec other Ids.sb d = rtl_sm d.pc d.operands.dest d.operands.src1 d.operands.src2 1 mmu_direct
exec other Ids.sh d = rtl_sm d.pc d.operands.dest d.operands.src1 d.operands.src2 2 mmu_direct
exec other Ids.sw d = rtl_sm d.pc d.operands.dest d.operands.src1 d.operands.src2 4 mmu_direct
exec other Ids.sd d = rtl_sm d.pc d.operands.dest d.operands.src1 d.operands.src2 8 mmu_direct
exec other Ids.lb_mmu d =
    rtl_lms d.pc d.operands.dest d.operands.src1 d.operands.src2 1 mmu_translate
exec other Ids.lh_mmu d =
    rtl_lms d.pc d.operands.dest d.operands.src1 d.operands.src2 2 mmu_translate
exec other Ids.lw_mmu d =
    rtl_lms d.pc d.operands.dest d.operands.src1 d.operands.src2 4 mmu_translate
exec other Ids.ld_mmu d =
    rtl_lms d.pc d.operands.dest d.operands.src1 d.operands.src2 8 mmu_translate
exec other Ids.lbu_mmu d =
    rtl_lm d.pc d.operands.dest d.operands.src1 d.operands.src2 1 mmu_translate
exec other Ids.lhu_mmu d =
    rtl_lm d.pc d.operands.dest d.operands.src1 d.operands.src2 2 mmu_translate
exec other Ids.lwu_mmu d =
    rtl_lm d.pc d.operands.dest d.operands.src1 d.operands.src2 4 mmu_translate
exec other Ids.sb_mmu d =
    rtl_sm d.pc d.operands.dest d.operands.src1 d.operands.src2 1 mmu_translate
exec other Ids.sh_mmu d =
    rtl_sm d.pc d.operands.dest d.operands.src1 d.operands.src2 2 mmu_translate
exec other Ids.sw_mmu d =
    rtl_sm d.pc d.operands.dest d.operands.src1 d.operands.src2 4 mmu_translate
exec other Ids.sd_mmu d =
    rtl_sm d.pc d.operands.dest d.operands.src1 d.operands.src2 8 mmu_translate
exec other Ids.addi d = Rvi.addi d.operands.dest d.operands.src1 d.operands.src2
exec other Ids.slti d = Rvi.slti d.operands.dest d.operands.src1 d.operands.src2
exec other Ids.sltui d = Rvi.sltui d.operands.dest d.operands.src1 d.operands.src2
exec other Ids.xori d = Rvi.xori d.operands.dest d.operands.src1 d.operands.src2
exec other Ids.ori d = Rvi.ori d.operands.dest d.operands.src1 d.operands.src2
exec other Ids.andi d = Rvi.andi d.operands.dest d.operands.src1 d.operands.src2
exec other Ids.slli d = Rvi.slli d.operands.dest d.operands.src1 d.operands.src2
exec other Ids.srli d = Rvi.srli d.operands.dest d.operands.src1 d.operands.src2
exec other Ids.srai d = Rvi.srai d.operands.dest d.operands.src1 d.operands.src2
exec other Ids.addiw d = Rvi.addiw d.operands.dest d.operands.src1 d.operands.src2
exec other Ids.slliw d = Rvi.slliw d.operands.dest d.operands.src1 d.operands.src2
exec other Ids.srliw d = Rvi.srliw d.operands.dest d.operands.src1 d.operands.src2
exec other Ids.sraiw d = Rvi.sraiw d.operands.dest d.operands.src1 d.operands.src2
exec other Ids.add d = Rvi.add d.operands.dest d.operands.src1 d.operands.src2
exec other Ids.sll d = Rvi.sll d.operands.dest d.operands.src1 d.operands.src2
exec other Ids.slt d = Rvi.slt d.operands.dest d.operands.src1 d.operands.src2
exec other Ids.sltu d = Rvi.sltu d.operands.dest d.operands.src1 d.operands.src2
exec other Ids.xor d = Rvi.xor d.operands.dest d.operands.src1 d.operands.src2
exec other Ids.srl d = Rvi.srl d.operands.dest d.operands.src1 d.operands.src2
exec other Ids.or d = Rvi.or d.operands.dest d.operands.src1 d.operands.src2
exec other Ids.and d = Rvi.and d.operands.dest d.operands.src1 d.operands.src2
exec other Ids.sub d = Rvi.sub d.operands.dest d.operands.src1 d.operands.src2
exec other Ids.sra d = Rvi.sra d.operands.dest d.operands.src1 d.operands.src2
exec other Ids.addw d = Rvi.addw d.operands.dest d.operands.src1 d.operands.src2
exec other Ids.subw d = Rvi.subw d.operands.dest d.operands.src1 d.operands.src2
exec other Ids.sllw d = Rvi.sllw d.operands.dest d.operands.src1 d.operands.src2
exec other Ids.srlw d = Rvi.srlw d.operands.dest d.operands.src1 d.operands.src2
exec other Ids.sraw d = Rvi.sraw d.operands.dest d.operands.src1 d.operands.src2
exec other Ids.auipc d = Rvi.auipc d.operands.dest d.operands.src1
exec other Ids.lui d = Rvi.lui d.operands.dest d.operands.src1
exec other Ids.jal d = Rvi.jal d.operands.dest d.operands.src1 d.operands.src2
exec other Ids.jalr d = Rvi.jalr d.operands.dest d.operands.src1 d.operands.src2 d.snpc
exec other Ids.dasicscall_j d =
    Rvi.dasicscall_j d.pc d.operands.dest d.operands.src1 d.operands.src2
exec other Ids.dasicscall_jr d =
    Rvi.dasicscall_jr d.pc d.operands.dest d.operands.src1 d.operands.src2 d.snpc
exec other Ids.beq d = Rvi.beq d.operands.src1 d.operands.src2 d.operands.dest d.snpc
exec other Ids.bne d = Rvi.bne d.operands.src1 d.operands.src2 d.operands.dest d.snpc
exec other Ids.blt d = Rvi.blt d.operands.src1 d.operands.src2 d.operands.dest d.snpc
exec other Ids.bge d = Rvi.bge d.operands.src1 d.operands.src2 d.operands.dest d.snpc
exec other Ids.bltu d = Rvi.bltu d.operands.src1 d.operands.src2 d.operands.dest d.snpc
exec other Ids.bgeu d = Rvi.bgeu d.operands.src1 d.operands.src2 d.operands.dest d.snpc
exec other Ids.mul d = rtl_reg Rvm.mul d.operands.dest d.operands.src1 d.operands.src2
exec other Ids.mulh d = rtl_reg Rvm.mulh d.operands.dest d.operands.src1 d.operands.src2
exec other Ids.mulhsu d = rtl_reg Rvm.mulhsu d.operands.dest d.operands.src1 d.operands.src2
exec other Ids.mulhu d = rtl_reg Rvm.mulhu d.operands.dest d.operands.src1 d.operands.src2
exec other Ids.div d = rtl_reg Rvm.div d.operands.dest d.operands.src1 d.operands.src2
exec other Ids.divu d = rtl_reg Rvm.divu d.operands.dest d.operands.src1 d.operands.src2
exec other Ids.rem d = rtl_reg Rvm.rem d.operands.dest d.operands.src1 d.operands.src2
exec other Ids.remu d = rtl_reg Rvm.remu d.operands.dest d.operands.src1 d.operands.src2
exec other Ids.mulw d = rtl_reg Rvm.mulw d.operands.dest d.operands.src1 d.operands.src2
exec other Ids.divw d = rtl_reg Rvm.divw d.operands.dest d.operands.src1 d.operands.src2
exec other Ids.divuw d = rtl_reg Rvm.divuw d.operands.dest d.operands.src1 d.operands.src2
exec other Ids.remw d = rtl_reg Rvm.remw d.operands.dest d.operands.src1 d.operands.src2
exec other Ids.remuw d = rtl_reg Rvm.remuw d.operands.dest d.operands.src1 d.operands.src2
exec other Ids.c_li d = Rvc.c_li d.operands.dest d.operands.src2
exec other Ids.c_addi d = Rvc.c_addi d.operands.dest d.operands.src2
exec other Ids.c_addiw d = Rvc.c_addiw d.operands.dest d.operands.src2
exec other Ids.c_slli d = Rvc.c_slli d.operands.dest d.operands.src2
exec other Ids.c_srli d = Rvc.c_srli d.operands.dest d.operands.src2
exec other Ids.c_srai d = Rvc.c_srai d.operands.dest d.operands.src2
exec other Ids.c_andi d = Rvc.c_andi d.operands.dest d.operands.src2
exec other Ids.c_add d = Rvc.c_add d.operands.dest d.operands.src2
exec other Ids.c_and d = Rvc.c_and d.operands.dest d.operands.src2
exec other Ids.c_or d = Rvc.c_or d.operands.dest d.operands.src2
exec other Ids.c_xor d = Rvc.c_xor d.operands.dest d.operands.src2
exec other Ids.c_sub d = Rvc.c_sub d.operands.dest d.operands.src2
exec other Ids.c_addw d = Rvc.c_addw d.operands.dest d.operands.src2
exec other Ids.c_subw d = Rvc.c_subw d.operands.dest d.operands.src2
exec other Ids.c_mv d = Rvc.c_mv d.operands.dest d.operands.src1
exec other Ids.c_j d = Rvc.c_j d.operands.src1
exec other Ids.c_jr d = Rvc.c_jr d.operands.src1
exec other Ids.c_jalr d = Rvc.c_jalr d.operands.src1 d.snpc
exec other Ids.c_beqz d = Rvc.c_beqz d.operands.src1 d.operands.dest d.snpc
exec other Ids.c_bnez d = Rvc.c_bnez d.operands.src1 d.operands.dest d.snpc
exec other Ids.p_bltz d = Rvc.p_bltz d.operands.src1 d.operands.dest d.snpc
exec other Ids.p_bgez d = Rvc.p_bgez d.operands.src1 d.operands.dest d.snpc
exec other Ids.p_blez d = Rvc.p_blez d.operands.src2 d.operands.dest d.snpc
exec other Ids.p_bgtz d = Rvc.p_bgtz d.operands.src2 d.operands.dest d.snpc
exec other Ids.p_sext_w d = Rvc.p_sext_w d.operands.dest d.operands.src1
exec other Ids.p_jal d = Rvc.p_jal d.operands.src1 d.operands.src2
exec other Ids.p_ret d = Rvc.p_ret
exec other Ids.p_li_0 d = Rvc.p_li_0 d.operands.dest
exec other Ids.p_li_1 d = Rvc.p_li_1 d.operands.dest
exec other Ids.p_inc d = Rvc.p_inc d.operands.dest
exec other Ids.p_dec d = Rvc.p_dec d.operands.dest
exec other Ids.fence d = ok tt
exec other Ids.atomic d =
    amo_slow_path d.pc (funct7 d.instr) (funct3 d.instr) d.operands.dest d.operands.src1
      d.operands.src2
exec other Ids.system d = System.system d.pc d.instr d.operands.dest d.operands.src1 d.operands.src2
exec other id d = other id d

-- What a table has found is executed; a failed assertion stops the emulator.
unfoldable pub exec_found : (ExecId → Decode → M (Unit {0})) → Decode → Option Found → M (Unit {0})
exec_found other d none = panic
exec_found other d (some f) = exec other f.id (record d { operands = f.operands })
