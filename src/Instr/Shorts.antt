-- ===== src/Instr/Shorts.antt =====
-- The compressed instructions with an immediate and at most one register.
use nemu.Base.{
  ℕ, ◌+◌, ◌-◌, ◌^◌, ◌≡◌, refl, sym, ◌∙◌, ap, arith, Bool, true, false, ◌&&◌, ◌==◌, if◌then◌else◌,
  [], ◌∷◌, ==_iff, inl, inr, Bool-cases,
}
use nemu.Base.{Option, field, u64}
use nemu.Machine.{Machine, M}
use nemu.Pattern.Fields.{fields}
use nemu.Pattern.Matches.{reverse_onto, bits, are_valid}
use nemu.Rvi.{rtl_imm, rtl_j, rtl_jrelop, write_reg}
use nemu.Rvi.Ops.{eq, ne}
use nemu.Rvi.Ops
use nemu.Rvi.Decode.{Operands}
use nemu.Rvc.Decode as Rvc
use nemu.Rvc.Immediates.{simm, uimm, bit, branch_offset, jump_offset}
use nemu.Instr.{Decode, Found, found}
use nemu.Instr.Ids.{ExecId}
use nemu.Instr.Ids
use nemu.Instr.Exec.{exec, exec_found}
use nemu.Instr.Select.{fact, nothing, known, part_of, select_fields, are_patterns, select-Known}
use nemu.Instr.Stack.{with_operands, in_lui, in_sp, in_spn, sp_operands, spn_operands, upper}
use nemu.Instr.Integer.{c_addi_dispatch}
use nemu.Instr.Compressed.{
  rvc, rvc_rows, rvc_q1, rvc_q1_rows, rvc_q2, rvc_q2_rows, c_li_dispatch, c_li_dispatch_rows,
}
use nemu.Instr.Expansion.{
  Action, Immediate, c_addi, c_addiw, c_li, c_lui, c_addi16sp, c_addi4spn, c_slli, c_j, c_beqz,
  c_bnez, perform, quadrant, funct, creg, simm6,
}

module _ (d : Decode) where
  in_q1 :
      {f : ℕ}
      → quadrant d.instr ≡ 1
      → funct d.instr ≡ f
      → rvc d ≡ select_fields (part_of (fact 13 3 f ∷ []) d.instr) rvc_q1_rows (found Ids.inv) d
  unfolding rvc rvc_q1 select_fields fields reverse_onto part_of are_patterns bits are_valid
  in_q1 low e =
      select-Known rvc_rows (found Ids.inv) refl d (known 0 2 low nothing)
      ∙ select-Known rvc_q1_rows (found Ids.inv) refl d (known 13 3 e nothing)

  in_q2 :
      {f : ℕ}
      → quadrant d.instr ≡ 2
      → funct d.instr ≡ f
      → rvc d ≡ select_fields (part_of (fact 13 3 f ∷ []) d.instr) rvc_q2_rows (found Ids.inv) d
  unfolding rvc rvc_q2 select_fields fields reverse_onto part_of are_patterns bits are_valid
  in_q2 low e =
      select-Known rvc_rows (found Ids.inv) refl d (known 0 2 low nothing)
      ∙ select-Known rvc_q2_rows (found Ids.inv) refl d (known 13 3 e nothing)

  in_li :
      (o : Operands)
      → c_li_dispatch (with_operands o d) ≡ (
          if (field d.instr 2 5 == 0) && ((bit d.instr 12 == 0) && true)
          then found Ids.p_li_0 (with_operands o d)
          else if (field d.instr 2 5 == 1) && ((bit d.instr 12 == 0) && true)
          then found Ids.p_li_1 (with_operands o d)
          else found Ids.c_li (with_operands o d))
  unfolding c_li_dispatch select_fields fields reverse_onto part_of are_patterns bits are_valid
  in_li o = select-Known c_li_dispatch_rows (found Ids.inv) refl (with_operands o d) nothing

decrement :
    (rd : ℕ) (s : Machine) → rtl_imm Ops.c_sub rd rd 1 s ≡ rtl_imm Ops.c_add rd rd (2 ^ 64 - 1) s
unfolding rtl_imm Ops.c_sub Ops.c_add
decrement rd s = refl

small_imm : (w k : ℕ) → field w 2 5 ≡ k → bit w 12 ≡ 0 → simm6 w ≡ k
small_imm w k e f = omega arith

module _ (other : ExecId → Decode → M (Unit {0})) (d : Decode) (s : Machine) where
  -- Adding one, subtracting one and adding an immediate.
  acts_addi :
      (rd : ℕ) (o : Operands)
      → o.dest ≡ rd
      → exec_found other d (c_addi_dispatch (with_operands o d)) s
        ≡ rtl_imm Ops.c_add rd rd o.src2 s
  unfolding c_addi_dispatch exec_found exec
  acts_addi rd o e = elim (Bool-cases (o.src2 == 1)) [
    | inl y ↦ rw (y, (==_iff _ _).0 y, e) refl
    | inr n ↦ elim (Bool-cases (o.src2 == 2 ^ 64 - 1)) [
      | inl y ↦ rw (n, y, (==_iff _ _).0 y, e) (decrement rd s)
      | inr m ↦ rw (n, m, e) refl
    ]
  ]

  abbrev w : ℕ
  w = d.instr

  abbrev rd : ℕ
  rd = field w 7 5

  acts_li :
      exec_found other d (c_li_dispatch (with_operands (Rvc.c_li w) d)) s ≡ write_reg rd (simm6 w) s
  unfolding exec_found exec Rvc.c_li Rvc.ci_simm
  acts_li =
      ap (λ (t : Option Found). exec_found other d t s) (in_li d (Rvc.c_li w))
      ∙ chosen (field w 2 5 == 0) (field w 2 5 == 1) (bit w 12 == 0) refl refl refl
    where
      chosen :
          (a b c : Bool)
          → (field w 2 5 == 0) ≡ a
          → (field w 2 5 == 1) ≡ b
          → (bit w 12 == 0) ≡ c
          → exec_found other d
              (if a && (c && true)
                then found Ids.p_li_0 (with_operands (Rvc.c_li w) d)
                else if b && (c && true)
                then found Ids.p_li_1 (with_operands (Rvc.c_li w) d)
                else found Ids.c_li (with_operands (Rvc.c_li w) d))
              s
            ≡ write_reg rd (simm6 w) s
      chosen true b true x y z =
          ap (λ (t : ℕ). write_reg rd t s)
            (sym (small_imm w 0 ((==_iff _ _).0 x) ((==_iff _ _).0 z)))
      chosen false true true x y z =
          ap (λ (t : ℕ). write_reg rd t s)
            (sym (small_imm w 1 ((==_iff _ _).0 y) ((==_iff _ _).0 z)))
      chosen false false true x y z = ap (λ (t : ℕ). write_reg rd t s) (simm w)
      chosen true true false x y z = ap (λ (t : ℕ). write_reg rd t s) (simm w)
      chosen true false false x y z = ap (λ (t : ℕ). write_reg rd t s) (simm w)
      chosen false true false x y z = ap (λ (t : ℕ). write_reg rd t s) (simm w)
      chosen false false false x y z = ap (λ (t : ℕ). write_reg rd t s) (simm w)

  acts :
      {q f : ℕ} {a : Action}
      → quadrant w ≡ q
      → funct w ≡ f
      → Immediate w q f a
      → exec_found other d (rvc d) s ≡ perform a d s
  unfolding exec_found exec perform select_fields fields reverse_onto part_of Rvc.ci_simm
      Rvc.ci_uimm Rvc.cj Rvc.cb write_reg Rvc.ci_simm_lui
  acts q e c_addi =
      ap (λ (t : Option Found). exec_found other d t s) (in_q1 d q e)
      ∙ acts_addi rd (Rvc.ci_simm w) refl
      ∙ ap (λ (t : ℕ). rtl_imm Ops.c_add rd rd t s) (simm w)
  acts q e c_addiw =
      ap (λ (t : Option Found). exec_found other d t s) (in_q1 d q e)
      ∙ ap (λ (t : ℕ). rtl_imm Ops.c_addw rd rd t s) (simm w)
  acts q e c_li = ap (λ (t : Option Found). exec_found other d t s) (in_q1 d q e) ∙ acts_li
  acts q e (c_lui nz) =
      ap (λ (t : Option Found). exec_found other d t s) (in_q1 d q e ∙ in_lui d nz)
      ∙ ap (λ (t : ℕ). write_reg rd t s) (upper w)
  acts q e (c_addi16sp two nz) =
      ap (λ (t : Option Found). exec_found other d t s)
        (in_q1 d q e ∙ in_sp d two (sp_operands w nz))
  acts q e (c_addi4spn nz) =
      ap (λ (t : Option Found). exec_found other d t s)
        (in_spn d q e (λ z. nz (omega arith)) (spn_operands w nz))
  acts q e c_slli =
      ap (λ (t : Option Found). exec_found other d t s) (in_q2 d q e)
      ∙ ap (λ (t : ℕ). rtl_imm Ops.c_shl rd rd t s) (uimm w)
  acts q e c_j =
      ap (λ (t : Option Found). exec_found other d t s) (in_q1 d q e)
      ∙ ap (λ (t : ℕ). rtl_j (u64 (d.pc + t)) s) (jump_offset w)
  acts q e c_beqz =
      ap (λ (t : Option Found). exec_found other d t s) (in_q1 d q e)
      ∙ ap (λ (t : ℕ). rtl_jrelop eq (creg w 7) 0 (u64 (d.pc + t)) d.snpc s) (branch_offset w)
  acts q e c_bnez =
      ap (λ (t : Option Found). exec_found other d t s) (in_q1 d q e)
      ∙ ap (λ (t : ℕ). rtl_jrelop ne (creg w 7) 0 (u64 (d.pc + t)) d.snpc s) (branch_offset w)

  -- C.ADDI, C.ADDIW, C.LI, C.LUI, C.SLLI, C.J, C.BEQZ and C.BNEZ, and C.ADDI16SP and C.ADDI4SPN where the
  -- immediate is not zero, act as the operation, the jump or the branch that the architecture's table gives
  -- for them, with the immediate put together from its bits, whichever form the tables choose.
  pub rvc-Immediate :
      {a : Action}
      → Immediate w (quadrant w) (funct w) a
      → exec_found other d (rvc d) s ≡ perform a d s
  rvc-Immediate c = acts refl refl c
