-- ===== src/Priv/System.antt =====
-- The instructions of the opcode SYSTEM (isa/riscv64/instr/priv/system.c, exec.h): environment calls, the
-- privileged instructions and the accesses to registers.
use nemu.Base.{
  ℕ, Bool, true, false, not, ◌||◌, ◌==◌, ◌!=◌, if◌then◌else◌, Option, none, some, not64, bit_and,
  bit_or, ◌+◌,
}
use nemu.Machine.{M, pure, ◌>>=◌, ◌>>◌, when}
use nemu.Rvi.{reg, write_reg, rtl_j}
use nemu.Rvi.Decode.{funct3, rs1}
use nemu.Priv.Instr.{csr_call, trap_call, priv_call, isa_hostcall}

-- Where the call leaves a value; a call that leaves none is read as 0.
abbrev value_of : Option ℕ → ℕ
value_of (some v) = v
value_of none = 0

abbrev pub is_csrrs_or_csrrc : ℕ → Bool
is_csrrs_or_csrrc f3 = bit_and f3 2 != 0

-- What CSRRW, CSRRS and CSRRC write, from the old value and the operand.
unfoldable pub csr_operand : ℕ → ℕ → ℕ → ℕ
csr_operand f3 old v =
    if bit_and f3 3 == 2
    then bit_or old v
    else (if bit_and f3 3 == 3 then bit_and old (not64 v) else v)

abbrev pub is_jmp : ℕ → Bool
is_jmp id = (id == 0) || ((id == 1) || ((id == 0x102) || ((id == 0x302) || (id == 2))))

-- An environment call, or a privileged instruction: it leaves the address where execution goes on.
unfoldable pub priv_call_or_trap : ℕ → ℕ → ℕ → M (Option ℕ)
priv_call_or_trap pc src id s =
    if id == 0
    then isa_hostcall (trap_call pc) (8 + s.mode) pc s
    else isa_hostcall (priv_call src) id pc s

-- An access to the register `id`: the old value is read, the new one is written unless the instruction
-- only sets or clears bits and has no operand, and the destination receives the old one.
unfoldable pub csr_slow_path : (pc instr dest src id : ℕ) → M (Unit {0})
csr_slow_path pc instr dest src id s =
    let f3 = funct3 instr in
    let operand = if bit_and f3 4 != 0 then rs1 instr else src in
    (do
      old ← isa_hostcall (csr_call true none) id pc
      when (not (is_csrrs_or_csrrc f3) || (rs1 instr != 0)) (
          isa_hostcall (csr_call false (some (csr_operand f3 (value_of old) operand))) id pc
          >> pure tt)
      write_reg dest (value_of old))
      s

-- rtl_sys_slow_path and the jump after it.
unfoldable pub system : (pc instr dest src1 id : ℕ) → M (Unit {0})
system pc instr dest src1 id s =
    if funct3 instr == 0
    then (do out ← priv_call_or_trap pc (reg src1 s) id; when (is_jmp id) (rtl_j (value_of out))) s
    else csr_slow_path pc instr dest (reg src1 s) id s
