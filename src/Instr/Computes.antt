-- ===== src/Instr/Computes.antt =====
-- The computations of the compressed instructions on one or two registers of three bits.
use nemu.Base.{ℕ, ◌≡◌, refl, ◌∙◌, ap, [], ◌∷◌}
use nemu.Base.{Option, field, bit_and}
use nemu.Machine.{Machine, M}
use nemu.Pattern.Fields.{fields}
use nemu.Pattern.Matches.{reverse_onto, bits, are_valid}
use nemu.Rvi.{rtl_imm}
use nemu.Rvi.Ops
use nemu.Rvi.Decode.{Operands}
use nemu.Rvc.Decode.{cs, cb_shift, cb_andi}
use nemu.Rvc.Immediates.{simm, uimm}
use nemu.Instr.{Decode, Found, found}
use nemu.Instr.Ids.{ExecId}
use nemu.Instr.Ids
use nemu.Instr.Exec.{exec, exec_found}
use nemu.Instr.Select.{fact, nothing, known, part_of, select_fields, are_patterns, select-Known}
use nemu.Instr.Compressed.{rvc, rvc_rows, rvc_q1, rvc_q1_rows, rvc_q1_compute, rvc_q1_compute_rows}
use nemu.Instr.Compressed.{
  rvc_q1_compute_more, rvc_q1_compute_more_rows, rvc_q1_compute_more64, rvc_q1_compute_more64_rows,
  rvc_q1_compute_more32, rvc_q1_compute_more32_rows,
}
use nemu.Instr.Expansion.{
  creg, Action, Compute, c_srli, c_srai, c_andi, c_sub, c_xor, c_or, c_and, c_subw, c_addw, perform,
  quadrant, funct,
}

abbrev with_operands : Operands → Decode → Decode
with_operands o d = record d { operands = o }

-- What the tables find, and the operands.
unfoldable finds : {w k b l : ℕ} {a : Action} → Compute w k b l a → ExecId × Operands
finds {w} c_srli = (Ids.c_srli, cb_shift w)
finds {w} c_srai = (Ids.c_srai, cb_shift w)
finds {w} c_andi = (Ids.c_andi, cb_andi w)
finds {w} c_sub = (Ids.c_sub, cs w)
finds {w} c_xor = (Ids.c_xor, cs w)
finds {w} c_or = (Ids.c_or, cs w)
finds {w} c_and = (Ids.c_and, cs w)
finds {w} c_subw = (Ids.c_subw, cs w)
finds {w} c_addw = (Ids.c_addw, cs w)

module _ (d : Decode) (low : quadrant d.instr ≡ 1) (four : funct d.instr ≡ 4) where
  in_compute :
      {k : ℕ}
      → field d.instr 10 2 ≡ k
      → rvc d
        ≡ select_fields (part_of (fact 10 2 k ∷ []) d.instr) rvc_q1_compute_rows (found Ids.inv) d
  unfolding rvc rvc_q1 rvc_q1_compute select_fields fields reverse_onto part_of are_patterns bits
      are_valid
  in_compute e =
      select-Known rvc_rows (found Ids.inv) refl d (known 0 2 low nothing)
      ∙ select-Known rvc_q1_rows (found Ids.inv) refl d (known 13 3 four nothing)
      ∙ select-Known rvc_q1_compute_rows (found Ids.inv) refl d (known 10 2 e nothing)

  in_more :
      {b : ℕ}
      → field d.instr 10 2 ≡ 3
      → field d.instr 12 1 ≡ b
      → rvc d
        ≡ select_fields
            (part_of (fact 12 1 b ∷ []) d.instr)
            rvc_q1_compute_more_rows
            (found Ids.inv)
            (with_operands (cs d.instr) d)
  unfolding rvc_q1_compute_more select_fields fields reverse_onto part_of are_patterns bits
      are_valid
  in_more e f =
      in_compute e
      ∙ select-Known rvc_q1_compute_more_rows (found Ids.inv) refl (with_operands (cs d.instr) d)
          (known 12 1 f nothing)

  in_64 :
      {l : ℕ}
      → field d.instr 5 2 ≡ l
      → rvc_q1_compute_more64 (with_operands (cs d.instr) d)
        ≡ select_fields
            (part_of (fact 5 2 l ∷ []) d.instr)
            rvc_q1_compute_more64_rows
            (found Ids.inv)
            (with_operands (cs d.instr) d)
  unfolding rvc_q1_compute_more64 are_patterns bits are_valid
  in_64 g =
      select-Known rvc_q1_compute_more64_rows (found Ids.inv) refl (with_operands (cs d.instr) d)
        (known 5 2 g nothing)

  in_32 :
      {l : ℕ}
      → field d.instr 5 2 ≡ l
      → rvc_q1_compute_more32 (with_operands (cs d.instr) d)
        ≡ select_fields
            (part_of (fact 5 2 l ∷ []) d.instr)
            rvc_q1_compute_more32_rows
            (found Ids.inv)
            (with_operands (cs d.instr) d)
  unfolding rvc_q1_compute_more32 are_patterns bits are_valid
  in_32 g =
      select-Known rvc_q1_compute_more32_rows (found Ids.inv) refl (with_operands (cs d.instr) d)
        (known 5 2 g nothing)

  rvc-finds :
      {k b l : ℕ} {a : Action}
      → field d.instr 10 2 ≡ k
      → field d.instr 12 1 ≡ b
      → field d.instr 5 2 ≡ l
      → (c : Compute d.instr k b l a) → rvc d ≡ found (finds c).0 (with_operands (finds c).1 d)
  unfolding finds rvc_q1_compute_more64 rvc_q1_compute_more32 select_fields fields reverse_onto
      part_of are_patterns bits are_valid
  rvc-finds e f g c_srli = in_compute e
  rvc-finds e f g c_srai = in_compute e
  rvc-finds e f g c_andi = in_compute e
  rvc-finds e f g c_sub = in_more e f ∙ in_64 g
  rvc-finds e f g c_xor = in_more e f ∙ in_64 g
  rvc-finds e f g c_or = in_more e f ∙ in_64 g
  rvc-finds e f g c_and = in_more e f ∙ in_64 g
  rvc-finds e f g c_subw = in_more e f ∙ in_32 g
  rvc-finds e f g c_addw = in_more e f ∙ in_32 g

module _ (other : ExecId → Decode → M (Unit {0})) (d : Decode) (s : Machine) where
  acts :
      {k b l : ℕ} {a : Action} (c : Compute d.instr k b l a)
      → exec other (finds c).0 (with_operands (finds c).1 d) s ≡ perform a d s
  unfolding finds exec perform cs cb_shift cb_andi
  acts c_srli =
      ap (λ (t : ℕ). rtl_imm Ops.c_shr (creg d.instr 7) (creg d.instr 7) t s) (uimm d.instr)
  acts c_srai =
      ap (λ (t : ℕ). rtl_imm Ops.c_sar (creg d.instr 7) (creg d.instr 7) t s) (uimm d.instr)
  acts c_andi = ap (λ (t : ℕ). rtl_imm bit_and (creg d.instr 7) (creg d.instr 7) t s) (simm d.instr)
  acts c_sub = refl
  acts c_xor = refl
  acts c_or = refl
  acts c_and = refl
  acts c_subw = refl
  acts c_addw = refl

  -- A compressed computation on the registers of three bits acts as the operation on the registers and the
  -- immediate that the architecture's table gives for it.
  pub rvc-Compute :
      quadrant d.instr ≡ 1
      → funct d.instr ≡ 4
      → {a : Action}
      → Compute d.instr (field d.instr 10 2) (field d.instr 12 1) (field d.instr 5 2) a
      → exec_found other d (rvc d) s ≡ perform a d s
  unfolding exec_found
  rvc-Compute low four c =
      ap (λ (t : Option Found). exec_found other d t s) (rvc-finds d low four refl refl refl c)
      ∙ acts c
