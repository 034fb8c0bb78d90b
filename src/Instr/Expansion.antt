-- ===== src/Instr/Expansion.antt =====
-- The instructions that the compressed ones stand for, by the fields of the architecture's tables.
use nemu.Base.{ℕ, ◌+◌, ◌-◌, ◌*◌, ◌^◌, ◌≡◌, ◌≢◌}
use nemu.Base.{u64, bit_and, bit_or, bit_xor, field}
use nemu.Machine.{M}
use nemu.Rvi.{rtl_reg, rtl_imm, rtl_lms, rtl_sm, rtl_j, rtl_jrelop, write_reg}
use nemu.Rvi.Ops.{Relop, eq, ne}
use nemu.Rvi.Ops
use nemu.Rvc.Immediates.{bit}
use nemu.Instr.{Decode}

-- What a full instruction does, on registers and immediates.
pub data Action : Type 0 where
  set : (rd imm : ℕ) → Action
  reg_op : (ℕ → ℕ → ℕ) → (rd rs1 rs2 : ℕ) → Action
  imm_op : (ℕ → ℕ → ℕ) → (rd rs1 imm : ℕ) → Action
  load store : (len reg rs1 offset : ℕ) → Action
  branch_zero : Relop → (rs1 offset : ℕ) → Action
  jump : (offset : ℕ) → Action

unfoldable pub perform : Action → Decode → M (Unit {0})
perform (set rd imm) d = write_reg rd imm
perform (reg_op f rd rs1 rs2) d = rtl_reg f rd rs1 rs2
perform (imm_op f rd rs1 imm) d = rtl_imm f rd rs1 imm
perform (load len rd rs1 offset) d = rtl_lms d.pc rd rs1 offset len d.mmu_mode
perform (store len src rs1 offset) d = rtl_sm d.pc src rs1 offset len d.mmu_mode
perform (branch_zero r rs1 offset) d = rtl_jrelop r rs1 0 (u64 (d.pc + offset)) d.snpc
perform (jump offset) d = rtl_j (u64 (d.pc + offset))

-- One of the eight registers that three bits name.
abbrev pub creg : ℕ → ℕ → ℕ
creg w lo = field w lo 3 + 8

abbrev pub quadrant : ℕ → ℕ
quadrant w = field w 0 2

abbrev pub funct : ℕ → ℕ
funct w = field w 13 3

abbrev pub simm6 : ℕ → ℕ
simm6 w = bit w 12 * (2 ^ 64 - 2 ^ 5) + field w 2 5

abbrev pub uimm6 : ℕ → ℕ
uimm6 w = bit w 12 * 32 + field w 2 5

-- The loads and stores.
pub data Access (w : ℕ) : ℕ → ℕ → Action → Type 0 where
  c_lw : Access w 0 2 (load 4 (creg w 2) (creg w 7) (bit w 5 * 64 + field w 10 3 * 8 + bit w 6 * 4))
  c_ld : Access w 0 3 (load 8 (creg w 2) (creg w 7) (field w 5 2 * 64 + field w 10 3 * 8))
  c_sw :
      Access w 0 6 (store 4 (creg w 2) (creg w 7) (bit w 5 * 64 + field w 10 3 * 8 + bit w 6 * 4))
  c_sd : Access w 0 7 (store 8 (creg w 2) (creg w 7) (field w 5 2 * 64 + field w 10 3 * 8))
  c_lwsp :
      Access w 2 2 (load 4 (field w 7 5) 2 (field w 2 2 * 64 + bit w 12 * 32 + field w 4 3 * 4))
  c_ldsp :
      Access w 2 3 (load 8 (field w 7 5) 2 (field w 2 3 * 64 + bit w 12 * 32 + field w 5 2 * 8))
  c_swsp : Access w 2 6 (store 4 (field w 2 5) 2 (field w 7 2 * 64 + field w 9 4 * 4))
  c_sdsp : Access w 2 7 (store 8 (field w 2 5) 2 (field w 7 3 * 64 + field w 10 3 * 8))

-- The computations of the first quadrant with funct 4, by bits 10 and 11, bit 12 and bits 5 and 6.
pub data Compute (w : ℕ) : ℕ → ℕ → ℕ → Action → Type 0 where
  c_srli : {b l : ℕ} → Compute w 0 b l (imm_op Ops.c_shr (creg w 7) (creg w 7) (uimm6 w))
  c_srai : {b l : ℕ} → Compute w 1 b l (imm_op Ops.c_sar (creg w 7) (creg w 7) (uimm6 w))
  c_andi : {b l : ℕ} → Compute w 2 b l (imm_op bit_and (creg w 7) (creg w 7) (simm6 w))
  c_sub : Compute w 3 0 0 (reg_op Ops.c_sub (creg w 7) (creg w 7) (creg w 2))
  c_xor : Compute w 3 0 1 (reg_op bit_xor (creg w 7) (creg w 7) (creg w 2))
  c_or : Compute w 3 0 2 (reg_op bit_or (creg w 7) (creg w 7) (creg w 2))
  c_and : Compute w 3 0 3 (reg_op bit_and (creg w 7) (creg w 7) (creg w 2))
  c_subw : Compute w 3 1 0 (reg_op Ops.c_subw (creg w 7) (creg w 7) (creg w 2))
  c_addw : Compute w 3 1 1 (reg_op Ops.c_addw (creg w 7) (creg w 7) (creg w 2))

-- The immediates of the stack pointer and of the upper bits.
abbrev pub stack_step : ℕ → ℕ
stack_step w =
    bit w 12 * (2 ^ 64 - 2 ^ 9) + field w 3 2 * 128 + bit w 5 * 64 + bit w 2 * 32 + bit w 6 * 16

abbrev pub stack_offset : ℕ → ℕ
stack_offset w = field w 7 4 * 64 + field w 11 2 * 16 + bit w 5 * 8 + bit w 6 * 4

abbrev pub upper_imm : ℕ → ℕ
upper_imm w = bit w 12 * (2 ^ 64 - 2 ^ 17) + field w 2 5 * 2 ^ 12

-- The transfers, and the instructions with an immediate and one register; two of them are reserved with
-- the immediate zero.
pub data Immediate (w : ℕ) : ℕ → ℕ → Action → Type 0 where
  c_addi : Immediate w 1 0 (imm_op Ops.c_add (field w 7 5) (field w 7 5) (simm6 w))
  c_addiw : Immediate w 1 1 (imm_op Ops.c_addw (field w 7 5) (field w 7 5) (simm6 w))
  c_li : Immediate w 1 2 (set (field w 7 5) (simm6 w))
  c_lui : field w 7 5 ≢ 2 → Immediate w 1 3 (set (field w 7 5) (upper_imm w))
  c_addi16sp :
      field w 7 5 ≡ 2 → stack_step w ≢ 0 → Immediate w 1 3 (imm_op Ops.c_add 2 2 (stack_step w))
  c_addi4spn : stack_offset w ≢ 0 → Immediate w 0 0 (imm_op Ops.c_add (creg w 2) 2 (stack_offset w))
  c_slli : Immediate w 2 0 (imm_op Ops.c_shl (field w 7 5) (field w 7 5) (uimm6 w))
  c_j : Immediate w 1 5 (
      jump (
        bit w 12 * (2 ^ 64 - 2 ^ 11)
        + bit w 8 * 1024
        + field w 9 2 * 256
        + bit w 6 * 128
        + bit w 7 * 64
        + bit w 2 * 32
        + bit w 11 * 16
        + field w 3 3 * 2))
  c_beqz : Immediate w 1 6 (
      branch_zero eq (creg w 7) (
        bit w 12 * (2 ^ 64 - 2 ^ 8)
        + field w 5 2 * 64
        + bit w 2 * 32
        + field w 10 2 * 8
        + field w 3 2 * 2))
  c_bnez : Immediate w 1 7 (
      branch_zero ne (creg w 7) (
        bit w 12 * (2 ^ 64 - 2 ^ 8)
        + field w 5 2 * 64
        + bit w 2 * 32
        + field w 10 2 * 8
        + field w 3 2 * 2))
