-- ===== src/Tests/Priv.antt =====
-- Tests of the registers and of the privileged instructions.
use nemu.Base.{refl, inl, arith, true, some}
use nemu.Machine.{Machine, set_csr}
use nemu.Machine.Csr
use nemu.Machine.Laws.{Ends}
use nemu.Trap.{intr_deleg_u, intr_deleg_s}
use nemu.Trap.Deleg.{SatpIsLegal}
use nemu.Trap.Level.{level_m, level_s}
use nemu.Priv.Read.{at}
use nemu.Priv.Write.{csr_write}
use nemu.Priv.Write.Satp.{csr_write-Keeps}
use nemu.Priv.Write.PmpCfg.{PmpcfgWrite, csr_write-PmpcfgWrite}
use nemu.Priv.Instr.{mret, sret}
use nemu.Priv.Instr.Resume.{Resumes, mret-raise_intr, sret-raise_intr}
use nemu.Priv.Instr.Access.{Verdict, csrrw-Verdict}
use nemu.Tests.{reset, sandbox}

csr_write-Keeps_example : Ends SatpIsLegal (csr_write (at Csr.satp) 0x1234 reset)
csr_write-Keeps_example = csr_write-Keeps (at Csr.satp) 0x1234 reset (inl refl) refl

csr_write-PmpcfgWrite_example : PmpcfgWrite Csr.pmpcfg0 0x1f62 reset
csr_write-PmpcfgWrite_example = csr_write-PmpcfgWrite Csr.pmpcfg0 0x1f62 reset refl

-- In the handler of machine mode, entered from supervisor mode with interrupts on.
abbrev handler : Machine
handler = set_csr Csr.mepc 0x80000100 (set_csr Csr.mstatus 0x880 reset)

abbrev s_handler : Machine
s_handler = record (set_csr Csr.mstatus 0x120 reset) { mode = 1 }

mret-raise_intr_example : Resumes mret level_m 8 0x1000 sandbox
unfolding intr_deleg_u intr_deleg_s
mret-raise_intr_example =
    mret-raise_intr 8 0x1000 sandbox (inl refl) (omega arith) (ground arith) refl refl

-- An environment call of user mode that medeleg delegates to the supervisor.
abbrev delegating : Machine
delegating = set_csr Csr.medeleg 0x100 sandbox

sret-raise_intr_example : Resumes sret level_s 8 0x1000 delegating
unfolding intr_deleg_u intr_deleg_s
sret-raise_intr_example =
    sret-raise_intr 8 0x1000 delegating (inl refl) (omega arith) (ground arith) refl refl refl

csrrw-Verdict_example : Verdict true (some 5) Csr.mstatus 0x80000000 reset
csrrw-Verdict_example = csrrw-Verdict true (some 5) Csr.mstatus 0x80000000 reset
