-- ===== src/Lib.antt =====
-- NEMU, an emulator of RISC-V systems: the privileged architecture and the memory system of one
-- riscv64 hart with DASICS.
--
-- The program. NEMU executes guest instructions one by one. An instruction reads and writes memory
-- through virtual addresses (src/memory/vaddr.c): DASICS checks the access, the memory management unit
-- translates the address (src/isa/riscv64/system/mmu.c), and physical memory protection, memory and the
-- devices serve the physical address (src/memory/paddr.c, src/device/io). Registers and privileged
-- instructions are in src/isa/riscv64/system/priv.c, traps in src/isa/riscv64/system/intr.c. A fault
-- leaves the instruction by longjmp_exception with a cause, and the execution loop then calls
-- raise_intr.
--
-- The files, and the code that each models:
--   Base, Bits       words of 64 bits as native numbers, `&`, `|` and bit fields
--   Machine          the state of one hart (src/isa/riscv64/include/isa-def.h), the registers
--                    (src/isa/riscv64/local-include/csr.h) and calls that may leave with an exception
--   Trap             src/isa/riscv64/system/intr.c, and update_mmu_state of system/mmu.c
--   Dasics           the dasics_* functions of src/isa/riscv64/system/priv.c
--   Clint            src/isa/riscv64/clint.c
--   Pmp              isa_pmp_check_permission of src/isa/riscv64/system/mmu.c
--   Priv             csr_read, csr_write, csrrw, priv_instr and isa_hostcall of system/priv.c
--   Memory           include/memory/host.h, src/device/io/map.c and mmio.c, src/memory/paddr.c
--   Mmu              ptw, check_permission, isa_mmu_check, isa_mmu_translate of system/mmu.c
--   Vaddr            src/memory/vaddr.c
--   Rvm              src/isa/riscv64/instr/rvm/exec.h, on the operations of engine/interpreter/c_op.h
--   Rvi              src/isa/riscv64/instr/rvi (compute.h, control.h, ldst.h, the operands of decode.h),
--                    on c_op.h, rtl-basic.h, include/rtl/rtl.h and include/rtl/pseudo.h
--   Rva              src/isa/riscv64/instr/rva/amo.c
--   Rvc              src/isa/riscv64/instr/rvc/exec.h, the operands of rvc/decode.h, instr/pseudo.h
--   Instr            the tables of patterns that choose an instruction (src/isa/riscv64/instr/decode.c, and
--                    rvi, rvm, rvf, rvd and rvc/decode.h), and what each of its identifiers executes
--   Cpu              isa_fetch_decode of instr/decode.c, include/cpu/ifetch.h, execute and the loop of
--                    cpu_exec (src/cpu/cpu-exec.c)
--   Pattern          pattern_decode and def_INSTR_raw of include/cpu/decode.h
--   Expr             src/utils/expr.c, and isa_reg_str2val of src/isa/riscv64/reg.c
--   Watchpoint       src/monitor/watchpoint.c
--   Tests            concrete states, and the theorems applied to them
-- A function of the code is a definition of the same name. Its static and global state is the record
-- Machine; a computation takes a state to an Outcome, which is a result, an exception raised by
-- longjmp_exception, or a stop of the emulator by panic or a failed assertion. Loops with a constant
-- bound recurse on the number of rounds left, and loops over the bytes of an access on the bytes left,
-- so no fuel can run out; the page walk recurses on its level, which starts at 2. The debugger's lexer
-- has the number of bytes as fuel and its evaluation one more than the number of tokens, and the search
-- for a watchpoint has 32. A batch of instructions recurses on its size. The results below say that each is enough.
--
-- The configuration is configs/riscv64-xs-dasics_defconfig with the defaults of Kconfig: N extension,
-- DASICS, 16 PMP entries, Svinval, software alignment checks, 40 bits of physical address, memory of
-- 8 GB from 0x80000000, no vector extension, no CONFIG_SHARE and no CONFIG_PERF_OPT. The queue of
-- committed stores belongs to the build for difftest and stands by itself.
--
-- Not modelled: what the instructions for bit manipulation, cryptography and floating point do, fence_i
-- and nemu_trap (they are a parameter `other`), vectors, the trace cache and the host TLB fast
-- path, the devices (a device is a function that a memory region carries), difftest, checkpoints,
-- the commands of the debugger, and the other guest architectures. Log output has no counterpart.
-- The regular expressions of the debugger are matchers of the languages that they describe. A write past
-- its array of tokens, or past the 32 bytes for the text of one, has no defined effect in the code and is a
-- stop of the emulator here.
pub mod Base
pub mod Bits
pub mod Machine
pub mod Trap
pub mod Cpu
pub mod Dasics
pub mod Clint
pub mod Pmp
pub mod Priv
pub mod Memory
pub mod Mmu
pub mod Vaddr
pub mod Rvm
pub mod Rvc
pub mod Rvi
pub mod Rva
pub mod Pattern
pub mod Expr
pub mod Instr
pub mod Watchpoint
pub mod Tests
