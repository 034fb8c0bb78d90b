-- ===== src/Tests/Trap.antt =====
-- Tests of the trap entry and of the choice of an interrupt.
use nemu.Base.{refl, inl, arith}
use nemu.Machine.{Machine, set_csr}
use nemu.Machine.Csr
use nemu.Trap.{raise_intr, isa_query_intr}
use nemu.Trap.Entry.{Enters, level_of, raise_intr-Enters}
use nemu.Trap.Query.{Answer, by_level, isa_query_intr-Answer}
use nemu.Tests.{reset}

raise_intr-Enters_example :
    Enters (level_of 2 reset) 2 0x80000010 reset (raise_intr 2 0x80000010 reset)
raise_intr-Enters_example =
    raise_intr-Enters 2 0x80000010 reset (inl refl) (omega arith) (ground arith)

-- A pending timer interrupt of machine mode.
abbrev timer : Machine
timer = set_csr Csr.mstatus 8 (set_csr Csr.mie 0x80 (set_csr Csr.mip 0x80 reset))

isa_query_intr-Answer_example : Answer timer by_level (isa_query_intr timer)
isa_query_intr-Answer_example = isa_query_intr-Answer timer
