-- ===== src/Tests/Mmu.antt =====
-- Tests of address translation.
use nemu.Base.{refl, inl, true, false}
use nemu.Machine.{read, write}
use nemu.Trap.{effective_mode}
use nemu.Mmu.{check_permission, isa_mmu_check}
use nemu.Mmu.Permission.{Verdict, check_permission-Verdict}
use nemu.Mmu.Check
use nemu.Tests.{sandbox}

check_permission-Verdict_example :
    Verdict 0xdf 0x3008 write
      (effective_mode false sandbox)
      sandbox
      (check_permission 0xdf true 0x3008 write sandbox)
unfolding effective_mode
check_permission-Verdict_example =
    check_permission-Verdict 0xdf 0x3008 write sandbox (inl refl) refl

isa_mmu_check-Verdict_example :
    Check.Verdict 0x3008 8 read sandbox (isa_mmu_check 0x3008 8 read sandbox)
isa_mmu_check-Verdict_example = Check.isa_mmu_check-Verdict 0x3008 8 read sandbox refl refl
