-- ===== src/Tests/Instr.antt =====
-- Tests of the choice and the execution of instructions.
use nemu.Base.{ℕ, ◌+◌, ◌≡◌, refl, arith, false, u64}
use nemu.Machine.{Machine, M, ok, panic, update}
use nemu.Rvi.{rtl_reg, rtl_imm, rtl_jrelop}
use nemu.Rvi.Ops.{lt}
use nemu.Rvi.Ops
use nemu.Rvi.Calls.{jumped, even_sum}
use nemu.Rvi.Decode.{signed_field, offset_b}
use nemu.Instr.{Decode}
use nemu.Instr.Ids.{ExecId}
use nemu.Instr.Exec.{exec_found}
use nemu.Instr.Main.{main}
use nemu.Instr.Alu
use nemu.Instr.Op.{main-Alu}
use nemu.Instr.OpImm.{main-AluImm, srai_far}
use nemu.Instr.Branches.{main-Condition, blt}
use nemu.Instr.Jumps.{main-jalr}
use nemu.Tests.{reset}

abbrev pub unmodelled : ExecId → Decode → M (Unit {0})
unmodelled id d = panic

abbrev pub fetched : ℕ → Decode
fetched w = record {
  pc = 0x80000000;
  snpc = 0x80000004;
  instr = w;
  mmu_mode = 0;
  fp_enable = false;
  operands = record { src1 = 0; src2 = 0; dest = 0 };
}

-- With 7 and 9 in the first two registers, and a return address.
abbrev pub counting : Machine
counting = record reset { gpr = update (update (λ _. 0) 1 0x80001230) 2 9 }

-- add x1, x1, x2
main-Alu_example :
    exec_found unmodelled (fetched 0x2080b3) (main (fetched 0x2080b3)) counting
    ≡ rtl_reg Ops.c_add 1 1 2 counting
main-Alu_example = main-Alu unmodelled (fetched 0x2080b3) counting Alu.add

-- bgtz x2, 16
main-Condition_example :
    exec_found unmodelled (fetched 0x204863) (main (fetched 0x204863)) counting
    ≡ rtl_jrelop lt 0 2 (u64 (0x80000000 + offset_b 0x204863)) 0x80000004 counting
main-Condition_example = main-Condition unmodelled (fetched 0x204863) counting refl blt

-- ret
main-jalr_example :
    exec_found unmodelled (fetched 0x8067) (main (fetched 0x8067)) counting
    ≡ ok tt (jumped 0 0x80000004 (even_sum 0x80001230 0) counting)
main-jalr_example = main-jalr unmodelled (fetched 0x8067) counting refl refl refl (omega arith)

-- srai x1, x1, 33
main-AluImm_example :
    exec_found unmodelled (fetched 0x4210d093) (main (fetched 0x4210d093)) counting
    ≡ rtl_imm Ops.c_sar 1 1 (signed_field 0x4210d093 20 12) counting
main-AluImm_example = main-AluImm unmodelled (fetched 0x4210d093) counting srai_far
