-- ===== src/Instr/Main.antt =====
-- The table of the instructions of 32 bits (isa/riscv64/instr/decode.c).
use nemu.Base.{ℕ, ◌*◌, ◌^◌, List, [], ◌∷◌, field, shl64, bit_or, u64, ◌+◌}
use nemu.Rvi.Decode.{Operands, rd, rs1, rs2, signed_field}
use nemu.Rvi.Decode as Rvi
use nemu.Instr.{Table, Row, tab, id_tab, found, select}
use nemu.Instr.Ids
use nemu.Instr.Integer.{load, store, op_imm, op_imm32, op, op32}
use nemu.Instr.Control.{branch, jal_dispatch, jalr_dispatch, mem_fence}
use nemu.Instr.Multiply.{rvm, rvm32}
use nemu.Instr.Float.{fload, fstore, fload_operands, fstore_operands, fr, fmadd_dispatch, op_fp}

unfoldable pub csr : ℕ → Operands
csr w = record { src1 = rs1 w; src2 = field w 20 12; dest = rd w }

unfoldable pub offset_dij : ℕ → ℕ
offset_dij w =
    bit_or
      (bit_or
        (bit_or (bit_or (shl64 (signed_field w 31 1) 22) (field w 7 1 * 2 ^ 21))
          (field w 15 6 * 2 ^ 15))
        (field w 8 4 * 2 ^ 11))
      (field w 21 10 * 2)

unfoldable pub dasicscall_j : ℕ → ℕ → ℕ → Operands
dasicscall_j pc snpc w = record { src1 = u64 (pc + offset_dij w); src2 = snpc; dest = 1 }

abbrev pub main_rows : List Row
main_rows =
    id_tab "??????? ????? ????? ??? ????? 00000 ??" (λ d. Rvi.decode_i d.instr) load
    ∷ id_tab "??????? ????? ????? ??? ????? 00001 ??" (λ d. fload_operands d.instr) fload
    ∷ id_tab "??????? ????? ????? 000 ????? 00010 ??" (λ d. dasicscall_j d.pc d.snpc d.instr)
        (found Ids.dasicscall_j)
    ∷ id_tab "??????? ????? ????? 001 ????? 00010 ??" (λ d. Rvi.decode_i d.instr)
        (found Ids.dasicscall_jr)
    ∷ id_tab "??????? ????? ????? ??? ????? 00011 ??" (λ d. Rvi.decode_i d.instr) mem_fence
    ∷ id_tab "??????? ????? ????? ??? ????? 00100 ??" (λ d. Rvi.decode_i d.instr) op_imm
    ∷ id_tab "??????? ????? ????? ??? ????? 00101 ??" (λ d. Rvi.decode_auipc d.pc d.instr)
        (found Ids.auipc)
    ∷ id_tab "??????? ????? ????? ??? ????? 00110 ??" (λ d. Rvi.decode_i d.instr) op_imm32
    ∷ id_tab "??????? ????? ????? ??? ????? 01000 ??" (λ d. Rvi.decode_s d.instr) store
    ∷ id_tab "??????? ????? ????? ??? ????? 01001 ??" (λ d. fstore_operands d.instr) fstore
    ∷ id_tab "??????? ????? ????? ??? ????? 01011 ??" (λ d. Rvi.decode_r d.instr) (found Ids.atomic)
    ∷ id_tab "0000001 ????? ????? ??? ????? 01100 ??" (λ d. Rvi.decode_r d.instr) rvm
    ∷ id_tab "??????? ????? ????? ??? ????? 01100 ??" (λ d. Rvi.decode_r d.instr) op
    ∷ id_tab "??????? ????? ????? ??? ????? 01101 ??" (λ d. Rvi.decode_u d.instr) (found Ids.lui)
    ∷ id_tab "0000001 ????? ????? ??? ????? 01110 ??" (λ d. Rvi.decode_r d.instr) rvm32
    ∷ id_tab "??????? ????? ????? ??? ????? 01110 ??" (λ d. Rvi.decode_r d.instr) op32
    ∷ id_tab "??????? ????? ????? ??? ????? 10000 ??" (λ d. fr d.instr) fmadd_dispatch
    ∷ id_tab "??????? ????? ????? ??? ????? 10001 ??" (λ d. fr d.instr) fmadd_dispatch
    ∷ id_tab "??????? ????? ????? ??? ????? 10010 ??" (λ d. fr d.instr) fmadd_dispatch
    ∷ id_tab "??????? ????? ????? ??? ????? 10011 ??" (λ d. fr d.instr) fmadd_dispatch
    ∷ tab "??????? ????? ????? ??? ????? 10100 ??" op_fp
    ∷ id_tab "??????? ????? ????? ??? ????? 11000 ??" (λ d. Rvi.decode_b d.pc d.instr) branch
    ∷ id_tab "??????? ????? ????? 000 ????? 11001 ??" (λ d. Rvi.decode_i d.instr) jalr_dispatch
    ∷ tab "??????? ????? ????? ??? ????? 11010 ??" (found Ids.nemu_trap)
    ∷ id_tab "??????? ????? ????? ??? ????? 11011 ??" (λ d. Rvi.decode_j d.pc d.snpc d.instr)
        jal_dispatch
    ∷ id_tab "??????? ????? ????? ??? ????? 11100 ??" (λ d. csr d.instr) (found Ids.system)
    ∷ []

unfoldable pub main : Table
main = select main_rows (found Ids.inv)
