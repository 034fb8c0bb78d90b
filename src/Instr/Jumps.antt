-- ===== src/Instr/Jumps.antt =====
-- Jumps: what the tables choose acts as the general instruction.
use nemu.Base.{
  ℕ, ◌+◌, ◌%◌, ◌^◌, ◌<◌, ◌≡◌, refl, ap, ◌∙◌, arith, Bool, true, false, ◌&&◌, ◌==◌, if◌then◌else◌,
}
use nemu.Base.{Option, field, u64, ==_iff}
use nemu.Machine.{Machine, M, ok}
use nemu.Pattern.Fields.{fields}
use nemu.Pattern.Matches.{reverse_onto, bits, are_valid}
use nemu.Rvi.{reg, write_reg, rtl_j, jal}
use nemu.Rvi.Calls.{jalr-jumped, jumped, even_sum}
use nemu.Rvi.Decode.{signed_field, funct3, funct7, rd, rs1, rs2, offset_j, decode_i, decode_j}
use nemu.Rvc.{p_jal, rtl_jr}
use nemu.Instr.{Decode, Found, found}
use nemu.Instr.Ids.{ExecId}
use nemu.Instr.Ids
use nemu.Instr.Exec.{exec, exec_found}
use nemu.Instr.Select.{known, nothing, part_of, select_fields, are_patterns, select-Known}
use nemu.Instr.Control.{jal_dispatch, jal_dispatch_rows, jalr_dispatch, jalr_dispatch_rows}
use nemu.Instr.Main.{main, main_rows}

abbrev with_j : Decode → Decode
with_j d = record d { operands = decode_j d.pc d.snpc d.instr }

abbrev with_i : Decode → Decode
with_i d = record d { operands = decode_i d.instr }

pub jal_finds :
    (d : Decode)
    → field d.instr 2 5 ≡ 0x1b
    → main d ≡ (
        if (rd d.instr == 0) && true
        then found Ids.c_j (with_j d)
        else if (rd d.instr == 1) && true
        then found Ids.p_jal (with_j d)
        else found Ids.jal (with_j d))
unfolding main jal_dispatch select_fields fields reverse_onto part_of are_patterns bits are_valid
jal_finds d c =
    select-Known main_rows (found Ids.inv) refl d (known 2 5 c nothing)
    ∙ select-Known jal_dispatch_rows (found Ids.inv) refl (with_j d) nothing

-- No immediate, no link, and the return address as the target.
pub jalr_finds :
    (d : Decode)
    → field d.instr 2 5 ≡ 0x19
    → funct3 d.instr ≡ 0
    → main d ≡ (
        if (rd d.instr == 0)
          && ((rs1 d.instr == 1) && ((rs2 d.instr == 0) && (funct7 d.instr == 0)))
        then found Ids.p_ret (with_i d)
        else if (rd d.instr == 0) && ((rs2 d.instr == 0) && (funct7 d.instr == 0))
        then found Ids.c_jr (with_i d)
        else found Ids.jalr (with_i d))
unfolding main jalr_dispatch select_fields fields reverse_onto part_of are_patterns bits are_valid
jalr_finds d c e =
    select-Known main_rows (found Ids.inv) refl d (known 2 5 c (known 12 3 e nothing))
    ∙ select-Known jalr_dispatch_rows (found Ids.inv) refl (with_i d) (known 12 3 e nothing)

no_imm : (w : ℕ) → rs2 w ≡ 0 → funct7 w ≡ 0 → signed_field w 20 12 ≡ 0
no_imm w e f = ground arith

-- A jump to an even address that does not link.
no_link :
    (r snpc : ℕ) (s : Machine)
    → reg r s % 2 ≡ 0
    → reg r s < 2 ^ 64
    → rtl_jr r s ≡ ok tt (jumped 0 snpc (even_sum (reg r s) 0) s)
unfolding rtl_jr rtl_j
no_link r snpc s even small = ap (λ (t : ℕ). ok tt (record s { pc = t })) at
  where
    at : reg r s ≡ even_sum (reg r s) 0
    at = omega arith

module _ (other : ExecId → Decode → M (Unit {0})) (d : Decode) (s : Machine) where
  -- A jump with a link goes to the target that its offset names, and its destination receives the address of
  -- the next instruction, whichever form the tables choose.
  pub main-jal :
      field d.instr 2 5 ≡ 0x1b
      → exec_found other d (main d) s ≡ jal (rd d.instr) (u64 (d.pc + offset_j d.instr)) d.snpc s
  unfolding exec_found exec decode_j jal p_jal write_reg
  main-jal c =
      ap (λ (t : Option Found). exec_found other d t s) (jal_finds d c)
      ∙ chosen (rd d.instr == 0) (rd d.instr == 1) refl refl
    where
      target : ℕ
      target = u64 (d.pc + offset_j d.instr)

      chosen :
          (a b : Bool)
          → (rd d.instr == 0) ≡ a
          → (rd d.instr == 1) ≡ b
          → exec_found other d
              (if a && true
                then found Ids.c_j (with_j d)
                else if b && true
                then found Ids.p_jal (with_j d)
                else found Ids.jal (with_j d))
              s
            ≡ jal (rd d.instr) (u64 (d.pc + offset_j d.instr)) d.snpc s
      chosen true b y z = rw ((==_iff _ _).0 y) refl
      chosen false true y z = rw ((==_iff _ _).0 z) refl
      chosen false false y z = refl

  -- An indirect jump goes to the sum of its register and its immediate, rounded down to an even address, and
  -- its destination receives the address of the next instruction, whichever form the tables choose, if the
  -- register holds an even word.
  pub main-jalr :
      field d.instr 2 5 ≡ 0x19
      → funct3 d.instr ≡ 0
      → reg (rs1 d.instr) s % 2 ≡ 0
      → reg (rs1 d.instr) s < 2 ^ 64
      → exec_found other d (main d) s
        ≡ ok tt (
            jumped
              (rd d.instr)
              d.snpc
              (even_sum (reg (rs1 d.instr) s) (signed_field d.instr 20 12))
              s)
  unfolding exec_found exec decode_i
  main-jalr c e even small =
      ap (λ (t : Option Found). exec_found other d t s) (jalr_finds d c e)
      ∙ chosen ((rd w == 0) && ((rs1 w == 1) && ((rs2 w == 0) && (funct7 w == 0))))
          ((rd w == 0) && ((rs2 w == 0) && (funct7 w == 0))) refl refl
    where
      w : ℕ
      w = d.instr

      lands : Machine
      lands = jumped (rd w) d.snpc (even_sum (reg (rs1 w) s) (signed_field w 20 12)) s

      short : rd w ≡ 0 → rs2 w ≡ 0 → funct7 w ≡ 0 → rtl_jr (rs1 w) s ≡ ok tt lands
      short a b f = rw (a, no_imm w b f) (no_link (rs1 w) d.snpc s even small)

      chosen :
          (a b : Bool)
          → ((rd w == 0) && ((rs1 w == 1) && ((rs2 w == 0) && (funct7 w == 0)))) ≡ a
          → ((rd w == 0) && ((rs2 w == 0) && (funct7 w == 0))) ≡ b
          → exec_found other d
              (if a
                then found Ids.p_ret (with_i d)
                else if b
                then found Ids.c_jr (with_i d)
                else found Ids.jalr (with_i d))
              s
            ≡ ok tt lands
      chosen true b y z =
          ap (λ (t : ℕ). rtl_jr t s) is_ra ∙ short (ground arith) (ground arith) (ground arith)
        where
          is_ra : 1 ≡ rs1 w
          is_ra = ground arith
      chosen false true y z = short (ground arith) (ground arith) (ground arith)
      chosen false false y z = jalr-jumped (rd w) (rs1 w) (signed_field w 20 12) d.snpc s
