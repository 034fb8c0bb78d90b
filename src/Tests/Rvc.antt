-- ===== src/Tests/Rvc.antt =====
-- Tests of the compressed instructions.
use nemu.Base.{◌≡◌, refl, inl}
use nemu.Rvi.Ops
use nemu.Rvi.Ops.{eq}
use nemu.Instr.Compressed.{rvc}
use nemu.Instr.Exec.{exec_found}
use nemu.Instr.Expansion.{reg_op, load, branch_zero, perform, c_subw, c_ldsp, c_beqz}
use nemu.Instr.Computes.{rvc-Compute}
use nemu.Instr.Accesses.{rvc-Access}
use nemu.Instr.Shorts.{rvc-Immediate}
use nemu.Tests.Instr.{unmodelled, fetched, counting}

-- c.subw x8, x9
rvc-Compute_example :
    exec_found unmodelled (fetched 0x9c05) (rvc (fetched 0x9c05)) counting
    ≡ perform (reg_op Ops.c_subw 8 8 9) (fetched 0x9c05) counting
rvc-Compute_example = rvc-Compute unmodelled (fetched 0x9c05) counting refl refl c_subw

-- c.ldsp x1, 8(x2)
rvc-Access_example :
    exec_found unmodelled (fetched 0x60a2) (rvc (fetched 0x60a2)) counting
    ≡ perform (load 8 1 2 8) (fetched 0x60a2) counting
rvc-Access_example = rvc-Access unmodelled (fetched 0x60a2) counting (inl refl) c_ldsp

-- c.beqz x8, 2
rvc-Immediate_example :
    exec_found unmodelled (fetched 0xc009) (rvc (fetched 0xc009)) counting
    ≡ perform (branch_zero eq 8 2) (fetched 0xc009) counting
rvc-Immediate_example = rvc-Immediate unmodelled (fetched 0xc009) counting c_beqz
