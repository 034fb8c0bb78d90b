-- ===== src/Instr/Stack.antt =====
-- The compressed instructions on the stack pointer and on the upper bits: what the tables find, and with
-- which immediate.
use nemu.Base.{ℕ, ◌≡◌, refl, ◌∙◌, ap, arith, false, ◌==◌}
use nemu.Base.{Option, none, some, field, shl64, ◌≢◌}
use nemu.Pattern.Fields.{fields}
use nemu.Pattern.Matches.{reverse_onto, bits, are_valid}
use nemu.Rvi.Decode.{Operands}
use nemu.Rvc.Decode as Rvc
use nemu.Rvc.Immediates.{simm, stack_adjustment, stack_address_offset}
use nemu.Instr.{Decode, found}
use nemu.Instr.Ids.{ExecId}
use nemu.Instr.Ids
use nemu.Instr.Select.{nothing, known, part_of, select_fields, are_patterns, select-Known}
use nemu.Instr.Compressed.{
  rvc, rvc_rows, rvc_q0, rvc_q0_rows, rvc_q1_lui_addi16sp, rvc_q1_lui_addi16sp_rows,
}
use nemu.Instr.Expansion.{stack_step, stack_offset, upper_imm, quadrant, funct, creg}

abbrev pub with_operands : Operands → Decode → Decode
with_operands o d = record d { operands = o }

module _ (d : Decode) where
  pub in_lui :
      field d.instr 7 5 ≢ 2
      → rvc_q1_lui_addi16sp d ≡ found Ids.lui (with_operands (Rvc.ci_simm_lui d.instr) d)
  unfolding rvc_q1_lui_addi16sp select_fields fields reverse_onto part_of are_patterns bits
      are_valid
  in_lui nz =
      let other : (field d.instr 7 5 == 2) ≡ false = ground arith in
      select-Known rvc_q1_lui_addi16sp_rows (found Ids.inv) refl d nothing ∙ rw other refl

  pub in_sp :
      {o : Operands}
      → field d.instr 7 5 ≡ 2
      → Rvc.c_addi16sp d.instr ≡ some o
      → rvc_q1_lui_addi16sp d ≡ found Ids.c_addi (with_operands o d)
  unfolding rvc_q1_lui_addi16sp select_fields fields reverse_onto part_of are_patterns bits
      are_valid
  in_sp e h =
      select-Known rvc_q1_lui_addi16sp_rows (found Ids.inv) refl d (known 7 5 e nothing)
      ∙ ap
          (λ (t : Option Operands). elim t [
            | none ↦ none
            | some o ↦ found Ids.c_addi (with_operands o d)
          ])
          h

  pub in_spn :
      {o : Operands}
      → quadrant d.instr ≡ 0
      → funct d.instr ≡ 0
      → field d.instr 5 8 ≢ 0
      → Rvc.c_addi4spn d.instr ≡ some o
      → rvc d ≡ found Ids.addi (with_operands o d)
  unfolding rvc rvc_q0 select_fields fields reverse_onto part_of are_patterns bits are_valid
  in_spn low e nz h =
      let other : (field d.instr 5 8 == 0) ≡ false = ground arith in
      select-Known rvc_rows (found Ids.inv) refl d (known 0 2 low nothing)
      ∙ select-Known rvc_q0_rows (found Ids.inv) refl d (known 13 3 e nothing)
      ∙ rw other (
          ap
            (λ (t : Option Operands). elim t [
              | none ↦ none
              | some o ↦ found Ids.addi (with_operands o d)
            ])
            h)

pub sp_operands :
    (w : ℕ)
    → stack_step w ≢ 0
    → Rvc.c_addi16sp w ≡ some (record { src1 = 2; src2 = stack_step w; dest = 2 })
unfolding Rvc.c_addi16sp
sp_operands w nz =
    let other : (stack_step w == 0) ≡ false = ground arith in rw (stack_adjustment w, other) refl

pub spn_operands :
    (w : ℕ)
    → stack_offset w ≢ 0
    → Rvc.c_addi4spn w ≡ some (record { src1 = 2; src2 = stack_offset w; dest = creg w 2 })
unfolding Rvc.c_addi4spn
spn_operands w nz =
    let other : (stack_offset w == 0) ≡ false = ground arith in
    rw (stack_address_offset w, other) refl

pub upper : (w : ℕ) → shl64 (Rvc.ci_simm w).src2 12 ≡ upper_imm w
unfolding Rvc.ci_simm
upper w = ap (λ (t : ℕ). shl64 t 12) (simm w) ∙ omega arith
