-- ===== src/Rvi/Decode.antt =====
-- The operands of the integer instructions (isa/riscv64/instr/rvi/decode.h) from the bit fields of an
-- instruction (isa/riscv64/include/isa-def.h).
pub mod Encode
use nemu.Base.{ℕ, ◌+◌, ◌-◌, ◌*◌, ◌/◌, ◌%◌, ◌^◌, ◌==◌, if◌then◌else◌, u64, bit_or, shl64, field}
use nemu.Machine.{Machine, M, panic}
use nemu.Trap.{mmu_direct, mmu_translate}

-- A signed bit field of `n` bits from bit `lo` on, as a word.
abbrev pub signed_field : ℕ → ℕ → ℕ → ℕ
signed_field w lo n =
    if field w (lo + n - 1) 1 == 1 then field w lo n + (2 ^ 64 - 2 ^ n) else field w lo n

abbrev pub rd : ℕ → ℕ
rd w = field w 7 5

abbrev pub funct3 : ℕ → ℕ
funct3 w = field w 12 3

abbrev pub rs1 : ℕ → ℕ
rs1 w = field w 15 5

abbrev pub rs2 : ℕ → ℕ
rs2 w = field w 20 5

abbrev pub funct7 : ℕ → ℕ
funct7 w = field w 25 7

-- What decoding leaves: the two sources, registers or immediates, and the destination.
pub record Operands : Type 0 where
  pub src1 : ℕ
  pub src2 : ℕ
  pub dest : ℕ

unfoldable pub decode_i : ℕ → Operands
decode_i w = record { src1 = rs1 w; src2 = signed_field w 20 12; dest = rd w }

unfoldable pub decode_r : ℕ → Operands
decode_r w = record { src1 = rs1 w; src2 = rs2 w; dest = rd w }

unfoldable pub decode_u : ℕ → Operands
decode_u w = record { src1 = shl64 (signed_field w 12 20) 12; src2 = 0; dest = rd w }

unfoldable pub decode_auipc : ℕ → ℕ → Operands
decode_auipc pc w =
    let u = decode_u w in record { src1 = u64 (u.src1 + pc); src2 = u.src2; dest = u.dest }

unfoldable pub offset_j : ℕ → ℕ
offset_j w =
    bit_or
      (bit_or (bit_or (shl64 (signed_field w 31 1) 20) (shl64 (field w 12 8) 12))
        (shl64 (field w 20 1) 11))
      (shl64 (field w 21 10) 1)

unfoldable pub decode_j : ℕ → ℕ → ℕ → Operands
decode_j pc snpc w = record { src1 = u64 (pc + offset_j w); src2 = snpc; dest = rd w }

unfoldable pub offset_b : ℕ → ℕ
offset_b w =
    bit_or
      (bit_or (bit_or (shl64 (signed_field w 31 1) 12) (shl64 (field w 7 1) 11))
        (shl64 (field w 25 6) 5))
      (shl64 (field w 8 4) 1)

-- The target of the branch is in the place of the destination.
unfoldable pub decode_b : ℕ → ℕ → Operands
decode_b pc w = record { src1 = rs1 w; src2 = rs2 w; dest = u64 (pc + offset_b w) }

unfoldable pub offset_s : ℕ → ℕ
offset_s w = bit_or (shl64 (signed_field w 25 7) 5) (field w 7 5)

-- The register that is stored is in the place of the destination.
unfoldable pub decode_s : ℕ → Operands
decode_s w = record { src1 = rs1 w; src2 = offset_s w; dest = rs2 w }
