-- ===== src/Cpu.antt =====
-- Fetching, decoding and executing instructions (include/cpu/ifetch.h, isa/riscv64/instr/decode.c,
-- cpu/cpu-exec.c without CONFIG_PERF_OPT). `other` executes the instructions that are not modelled.
pub mod Loop
pub mod Transfers
pub mod Operations
pub mod Steps
pub mod Faults
use nemu.Base.{
  ℕ, zero, suc, ◌+◌, ◌-◌, ◌*◌, ◌^◌, Bool, true, false, ◌&&◌, ◌||◌, ◌==◌, ◌!=◌, if◌then◌else◌,
}
use nemu.Base.{Option, none, some, u64, u32, field, set_field, bit_or, ltb, min}
use nemu.Machine.{Machine, M, Outcome, ok, raised, panicked, pure, panic, get, when, ◌>>=◌, ◌>>◌}
use nemu.Machine.{set_csr, mode_u}
use nemu.Machine.Csr
use nemu.Machine.Csr.Mstatus
use nemu.Trap.{mmu_direct, mmu_translate, raise_intr, isa_query_intr, intr_empty}
use nemu.Vaddr.{vaddr_ifetch}
use nemu.Dasics.{CfiType, cfi_none, cfi_branch, cfi_jump, dasics_fetch_helper, dfr_jf}
use nemu.Instr.{Decode, Table, Found}
use nemu.Instr.Ids.{ExecId}
use nemu.Instr.Ids
use nemu.Instr.Main.{main}
use nemu.Instr.Compressed.{rvc}
use nemu.Instr.Exec.{exec}

-- What the static Decode keeps for the next fetch.
pub record Prev : Type 0 where
  pub prev_pc : ℕ
  pub prev_type : CfiType
  pub prev_is_cfi : Bool

-- The second half of an instruction of 32 bits, which may be on another page.
unfoldable pub fetch_high : ℕ → ℕ → M (ℕ × ℕ)
fetch_high pc low = do
  high ← vaddr_ifetch (u64 (pc + 2)) 2
  pure (bit_or low (u32 (high * 2 ^ 16)), u64 (pc + 4))

-- The instruction and the address of the next one: opcode1_0 tells a compressed one.
unfoldable pub fetch : ℕ → M (ℕ × ℕ)
fetch pc = do
  low ← vaddr_ifetch pc 2
  if field low 0 2 != 3 then pure (low, u64 (pc + 2)) else fetch_high pc low

-- The kind of control transfer that an instruction is.
unfoldable pub cfi_of : ExecId → CfiType
cfi_of Ids.c_j = cfi_jump
cfi_of Ids.p_jal = cfi_jump
cfi_of Ids.jal = cfi_jump
cfi_of Ids.dasicscall_j = cfi_jump
cfi_of Ids.beq = cfi_branch
cfi_of Ids.bne = cfi_branch
cfi_of Ids.blt = cfi_branch
cfi_of Ids.bge = cfi_branch
cfi_of Ids.bltu = cfi_branch
cfi_of Ids.bgeu = cfi_branch
cfi_of Ids.c_beqz = cfi_branch
cfi_of Ids.c_bnez = cfi_branch
cfi_of Ids.p_bltz = cfi_branch
cfi_of Ids.p_bgez = cfi_branch
cfi_of Ids.p_blez = cfi_branch
cfi_of Ids.p_bgtz = cfi_branch
cfi_of Ids.p_ret = cfi_jump
cfi_of Ids.c_jr = cfi_jump
cfi_of Ids.c_jalr = cfi_jump
cfi_of Ids.jalr = cfi_jump
cfi_of Ids.dasicscall_jr = cfi_jump
cfi_of _ = cfi_none

abbrev pub is_cfi : CfiType → Bool
is_cfi cfi_none = false
is_cfi _ = true

-- The table for the instruction.
unfoldable pub decode_table : Table
decode_table d =
    let compressed = rvc d in
    let full = main d in if field d.instr 0 2 != 3 then compressed else full

abbrev to_decode : ℕ → ℕ × ℕ → Machine → Decode
to_decode pc (instr, snpc) s = record {
  pc = pc;
  snpc = snpc;
  instr = instr;
  mmu_mode = if s.data_mmu_state == mmu_direct then mmu_direct else mmu_translate;
  fp_enable = Mstatus.fs (s.csr_array Csr.mstatus) != 0;
  operands = record { src1 = 0; src2 = 0; dest = 0 };
}

unfoldable pub chosen : Decode → Option Found → M (ExecId × Decode)
chosen d none = panic
chosen d (some f) = pure (f.id, record d { operands = f.operands })

-- DASICS checks the transfer that the instruction before made; then the instruction is fetched and decoded.
unfoldable pub isa_fetch_decode : Prev → ℕ → M (ExecId × Decode)
isa_fetch_decode prev pc = do
  when prev.prev_is_cfi (dasics_fetch_helper pc prev.prev_pc prev.prev_type)
  instr ← fetch pc
  s ← get
  chosen (to_decode pc instr s) (decode_table (to_decode pc instr s))

-- After an instruction at `pc`.
abbrev pub after : ℕ → ExecId → Prev
after pc id = record { prev_pc = pc; prev_type = cfi_of id; prev_is_cfi = is_cfi (cfi_of id) }

-- The timer of user mode.
unfoldable pub utimer_tick : Machine → Machine
utimer_tick s =
    let utimer = s.csr_array Csr.utimer in
    let mip = s.csr_array Csr.mip in
    if ltb 1 utimer && (s.mode == mode_u)
    then set_csr Csr.utimer (utimer - 1) s
    else if utimer == 1
    then set_csr Csr.mip (set_field mip 8 1 1) s
    else set_csr Csr.mip (set_field mip 8 1 0) s

-- How instructions end: they are done, one leaves with a cause and its own address, or the emulator stops.
pub data Ran : Type 0 where
  done : Prev → Machine → Ran
  faulted : (cause pc : ℕ) → Prev → Machine → Ran
  stopped : Ran

module _ (other : ExecId → Decode → M (Unit {0})) where
  -- The end of an instruction.
  unfoldable pub finish : ℕ → Prev → Outcome (Unit {0}) → Ran
  finish pc prev (ok _ s) = done prev (utimer_tick s)
  finish pc prev (raised cause s) = faulted cause pc prev s
  finish pc prev panicked = stopped

  -- The instruction is executed with the program counter at the next one.
  unfoldable pub exec_decoded : ℕ → Prev → Outcome (ExecId × Decode) → Ran
  exec_decoded pc prev (ok (id, d) s) =
      finish pc (after pc id) (exec other id d (record s { pc = d.snpc }))
  exec_decoded pc prev (raised cause s) = faulted cause pc prev s
  exec_decoded pc prev panicked = stopped

  -- One round of `execute`, fetch_decode included.
  unfoldable pub execute_one : Prev → Machine → Ran
  execute_one prev s = exec_decoded s.pc prev (isa_fetch_decode prev s.pc s)

  unfoldable pub execute : ℕ → Prev → Machine → Ran
  execute zero prev s = done prev s
  execute (suc n) prev s = elim (execute_one prev s) [
    | done prev' s' ↦ execute n prev' s'
    | faulted cause pc prev' s' ↦ faulted cause pc prev' s'
    | stopped ↦ stopped
  ]
