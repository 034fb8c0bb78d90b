-- ===== src/Instr/Accesses.antt =====
-- The loads and stores of the compressed instructions.
use nemu.Base.{
  ℕ, ◌≡◌, refl, sym, ◌∙◌, ap, arith, Bool, true, false, ◌&&◌, ◌==◌, if◌then◌else◌, List, [], ◌∷◌,
  inl, inr, ◌⊎◌,
}
use nemu.Base.{Option, field}
use nemu.Machine.{Machine, M, Outcome}
use nemu.Pattern.Fields.{fields}
use nemu.Pattern.Matches.{reverse_onto, bits, are_valid}
use nemu.Trap.{mmu_direct, mmu_translate}
use nemu.Rvi.{rtl_lms, rtl_sm}
use nemu.Rvi.Decode.{Operands}
use nemu.Rvc.Decode as Rvc
use nemu.Rvc.Immediates.{
  word_offset, double_offset, stack_word_offset, stack_double_offset, stack_word_store_offset,
  stack_double_store_offset,
}
use nemu.Instr.{Decode, Found, found, select, Row, by_mmu_mode}
use nemu.Instr.Ids.{ExecId}
use nemu.Instr.Ids
use nemu.Instr.Exec.{exec, exec_found}
use nemu.Instr.Select.{fact, nothing, known, part_of, select_fields, are_patterns, select-Known}
use nemu.Instr.Compressed.{
  rvc, rvc_rows, rvc_q0, rvc_q0_rows, rvc_q2, rvc_q2_rows, c_ldst, c_ldst_direct_rows,
  c_ldst_translated_rows,
}
use nemu.Instr.Expansion.{
  Action, Access, c_lw, c_ld, c_sw, c_sd, c_lwsp, c_ldsp, c_swsp, c_sdsp, perform, quadrant, funct,
  creg,
}

abbrev with_operands : Operands → Decode → Decode
with_operands o d = record d { operands = o }

-- The instruction without and with translation, and the operands.
unfoldable finds : {w q f : ℕ} {a : Action} → Access w q f a → ExecId × ExecId × Operands
finds {w} c_lw = (Ids.lw, Ids.lw_mmu, Rvc.c_lw w)
finds {w} c_ld = (Ids.ld, Ids.ld_mmu, Rvc.c_ld w)
finds {w} c_sw = (Ids.sw, Ids.sw_mmu, Rvc.c_sw w)
finds {w} c_sd = (Ids.sd, Ids.sd_mmu, Rvc.c_sd w)
finds {w} c_lwsp = (Ids.lw, Ids.lw_mmu, Rvc.c_lwsp w)
finds {w} c_ldsp = (Ids.ld, Ids.ld_mmu, Rvc.c_ldsp w)
finds {w} c_swsp = (Ids.sw, Ids.sw_mmu, Rvc.c_swsp w)
finds {w} c_sdsp = (Ids.sd, Ids.sd_mmu, Rvc.c_sdsp w)

skip : (b : Bool) (x y : Option Found) → (if b && false then x else y) ≡ y
skip b x y = ground arith

module _ (d : Decode) where
  in_q0 :
      {f : ℕ}
      → quadrant d.instr ≡ 0
      → funct d.instr ≡ f
      → rvc d ≡ select_fields (part_of (fact 13 3 f ∷ []) d.instr) rvc_q0_rows (found Ids.inv) d
  unfolding rvc rvc_q0 select_fields fields reverse_onto part_of are_patterns bits are_valid
  in_q0 low e =
      select-Known rvc_rows (found Ids.inv) refl d (known 0 2 low nothing)
      ∙ select-Known rvc_q0_rows (found Ids.inv) refl d (known 13 3 e nothing)

  in_q2 :
      {f : ℕ}
      → quadrant d.instr ≡ 2
      → funct d.instr ≡ f
      → rvc d ≡ select_fields (part_of (fact 13 3 f ∷ []) d.instr) rvc_q2_rows (found Ids.inv) d
  unfolding rvc rvc_q2 select_fields fields reverse_onto part_of are_patterns bits are_valid
  in_q2 low e =
      select-Known rvc_rows (found Ids.inv) refl d (known 0 2 low nothing)
      ∙ select-Known rvc_q2_rows (found Ids.inv) refl d (known 13 3 e nothing)

  goes_on :
      {q f : ℕ} {a : Action}
      → quadrant d.instr ≡ q
      → funct d.instr ≡ f
      → (c : Access d.instr q f a) → rvc d ≡ c_ldst (with_operands (finds c).2 d)
  unfolding finds select_fields fields reverse_onto part_of
  goes_on q e c_lw = in_q0 q e ∙ skip (field d.instr 5 8 == 0) _ _
  goes_on q e c_ld = in_q0 q e ∙ skip (field d.instr 5 8 == 0) _ _
  goes_on q e c_sw = in_q0 q e ∙ skip (field d.instr 5 8 == 0) _ _
  goes_on q e c_sd = in_q0 q e ∙ skip (field d.instr 5 8 == 0) _ _
  goes_on q e c_lwsp = in_q2 q e
  goes_on q e c_ldsp = in_q2 q e
  goes_on q e c_swsp = in_q2 q e
  goes_on q e c_sdsp = in_q2 q e

  mode_direct :
      (rows rows' : List Row) (o : Operands)
      → d.mmu_mode ≡ mmu_direct
      → by_mmu_mode rows rows' (with_operands o d) ≡ select rows (found Ids.inv) (with_operands o d)
  unfolding by_mmu_mode
  mode_direct rows rows' o m = rw (test m) refl
    where
      test : d.mmu_mode ≡ mmu_direct → (d.mmu_mode == mmu_direct) ≡ true
      test m = ground arith

  mode_translated :
      (rows rows' : List Row) (o : Operands)
      → d.mmu_mode ≡ mmu_translate
      → by_mmu_mode rows rows' (with_operands o d)
        ≡ select rows' (found Ids.inv) (with_operands o d)
  unfolding by_mmu_mode
  mode_translated rows rows' o m = rw (test m, other m) refl
    where
      test : d.mmu_mode ≡ mmu_translate → (d.mmu_mode == mmu_direct) ≡ false
      test m = ground arith

      other : d.mmu_mode ≡ mmu_translate → (d.mmu_mode == mmu_translate) ≡ true
      other m = ground arith

  in_direct :
      {f : ℕ} (o : Operands)
      → funct d.instr ≡ f
      → select c_ldst_direct_rows (found Ids.inv) (with_operands o d)
        ≡ select_fields
            (part_of (fact 13 3 f ∷ []) d.instr)
            c_ldst_direct_rows
            (found Ids.inv)
            (with_operands o d)
  unfolding are_patterns bits are_valid
  in_direct o e =
      select-Known c_ldst_direct_rows (found Ids.inv) refl (with_operands o d)
        (known 13 3 e nothing)

  in_translated :
      {f : ℕ} (o : Operands)
      → funct d.instr ≡ f
      → select c_ldst_translated_rows (found Ids.inv) (with_operands o d)
        ≡ select_fields
            (part_of (fact 13 3 f ∷ []) d.instr)
            c_ldst_translated_rows
            (found Ids.inv)
            (with_operands o d)
  unfolding are_patterns bits are_valid
  in_translated o e =
      select-Known c_ldst_translated_rows (found Ids.inv) refl (with_operands o d)
        (known 13 3 e nothing)

  direct :
      {q f : ℕ} {a : Action} (o : Operands)
      → d.mmu_mode ≡ mmu_direct
      → funct d.instr ≡ f
      → (c : Access d.instr q f a)
      → c_ldst (with_operands o d) ≡ found (finds c).0 (with_operands o d)
  unfolding finds c_ldst select_fields fields reverse_onto part_of are_patterns bits are_valid
  direct o m e c_lw = mode_direct c_ldst_direct_rows c_ldst_translated_rows o m ∙ in_direct o e
  direct o m e c_ld = mode_direct c_ldst_direct_rows c_ldst_translated_rows o m ∙ in_direct o e
  direct o m e c_sw = mode_direct c_ldst_direct_rows c_ldst_translated_rows o m ∙ in_direct o e
  direct o m e c_sd = mode_direct c_ldst_direct_rows c_ldst_translated_rows o m ∙ in_direct o e
  direct o m e c_lwsp = mode_direct c_ldst_direct_rows c_ldst_translated_rows o m ∙ in_direct o e
  direct o m e c_ldsp = mode_direct c_ldst_direct_rows c_ldst_translated_rows o m ∙ in_direct o e
  direct o m e c_swsp = mode_direct c_ldst_direct_rows c_ldst_translated_rows o m ∙ in_direct o e
  direct o m e c_sdsp = mode_direct c_ldst_direct_rows c_ldst_translated_rows o m ∙ in_direct o e

  translated :
      {q f : ℕ} {a : Action} (o : Operands)
      → d.mmu_mode ≡ mmu_translate
      → funct d.instr ≡ f
      → (c : Access d.instr q f a)
      → c_ldst (with_operands o d) ≡ found (finds c).1 (with_operands o d)
  unfolding finds c_ldst select_fields fields reverse_onto part_of are_patterns bits are_valid
  translated o m e c_lw =
      mode_translated c_ldst_direct_rows c_ldst_translated_rows o m ∙ in_translated o e
  translated o m e c_ld =
      mode_translated c_ldst_direct_rows c_ldst_translated_rows o m ∙ in_translated o e
  translated o m e c_sw =
      mode_translated c_ldst_direct_rows c_ldst_translated_rows o m ∙ in_translated o e
  translated o m e c_sd =
      mode_translated c_ldst_direct_rows c_ldst_translated_rows o m ∙ in_translated o e
  translated o m e c_lwsp =
      mode_translated c_ldst_direct_rows c_ldst_translated_rows o m ∙ in_translated o e
  translated o m e c_ldsp =
      mode_translated c_ldst_direct_rows c_ldst_translated_rows o m ∙ in_translated o e
  translated o m e c_swsp =
      mode_translated c_ldst_direct_rows c_ldst_translated_rows o m ∙ in_translated o e
  translated o m e c_sdsp =
      mode_translated c_ldst_direct_rows c_ldst_translated_rows o m ∙ in_translated o e

module _ (other : ExecId → Decode → M (Unit {0})) (d : Decode) (s : Machine) where
  -- A load or store with the offset and the mode written in another way.
  abbrev loads : (len reg rs1 offset mode : ℕ) → Outcome (Unit {0})
  loads len rd rs1 offset mode = rtl_lms d.pc rd rs1 offset len mode s

  abbrev stores : (len reg rs1 offset mode : ℕ) → Outcome (Unit {0})
  stores len src rs1 offset mode = rtl_sm d.pc src rs1 offset len mode s

  same : (f : ℕ → ℕ → Outcome (Unit {0})) {o o' m m' : ℕ} → o ≡ o' → m ≡ m' → f o m' ≡ f o' m
  same f {o} {o'} {m} {m'} e g = ap (λ (t : ℕ). f t m') e ∙ ap (f o') (sym g)

  acts_direct :
      {q f : ℕ} {a : Action}
      → d.mmu_mode ≡ mmu_direct
      → (c : Access d.instr q f a)
      → exec other (finds c).0 (with_operands (finds c).2 d) s ≡ perform a d s
  unfolding finds exec perform Rvc.c_lw Rvc.c_ld Rvc.c_lwsp Rvc.c_ldsp Rvc.c_swsp Rvc.c_sdsp
      Rvc.c_imm6
  acts_direct m c_lw = same (loads 4 (creg d.instr 2) (creg d.instr 7)) (word_offset d.instr) m
  acts_direct m c_ld = same (loads 8 (creg d.instr 2) (creg d.instr 7)) (double_offset d.instr) m
  acts_direct m c_sw = same (stores 4 (creg d.instr 2) (creg d.instr 7)) (word_offset d.instr) m
  acts_direct m c_sd = same (stores 8 (creg d.instr 2) (creg d.instr 7)) (double_offset d.instr) m
  acts_direct m c_lwsp = same (loads 4 (field d.instr 7 5) 2) (stack_word_offset d.instr) m
  acts_direct m c_ldsp = same (loads 8 (field d.instr 7 5) 2) (stack_double_offset d.instr) m
  acts_direct m c_swsp = same (stores 4 (field d.instr 2 5) 2) (stack_word_store_offset d.instr) m
  acts_direct m c_sdsp = same (stores 8 (field d.instr 2 5) 2) (stack_double_store_offset d.instr) m

  acts_translated :
      {q f : ℕ} {a : Action}
      → d.mmu_mode ≡ mmu_translate
      → (c : Access d.instr q f a)
      → exec other (finds c).1 (with_operands (finds c).2 d) s ≡ perform a d s
  unfolding finds exec perform Rvc.c_lw Rvc.c_ld Rvc.c_lwsp Rvc.c_ldsp Rvc.c_swsp Rvc.c_sdsp
      Rvc.c_imm6
  acts_translated m c_lw = same (loads 4 (creg d.instr 2) (creg d.instr 7)) (word_offset d.instr) m
  acts_translated m c_ld =
      same (loads 8 (creg d.instr 2) (creg d.instr 7)) (double_offset d.instr) m
  acts_translated m c_sw = same (stores 4 (creg d.instr 2) (creg d.instr 7)) (word_offset d.instr) m
  acts_translated m c_sd =
      same (stores 8 (creg d.instr 2) (creg d.instr 7)) (double_offset d.instr) m
  acts_translated m c_lwsp = same (loads 4 (field d.instr 7 5) 2) (stack_word_offset d.instr) m
  acts_translated m c_ldsp = same (loads 8 (field d.instr 7 5) 2) (stack_double_offset d.instr) m
  acts_translated m c_swsp =
      same (stores 4 (field d.instr 2 5) 2) (stack_word_store_offset d.instr) m
  acts_translated m c_sdsp =
      same (stores 8 (field d.instr 2 5) 2) (stack_double_store_offset d.instr) m

  -- A compressed load or store acts as the full one, with the registers and the offset that the architecture
  -- puts together from its bits, in either mode of the memory management unit.
  pub rvc-Access :
      {a : Action}
      → (d.mmu_mode ≡ mmu_direct) ⊎ (d.mmu_mode ≡ mmu_translate)
      → Access d.instr (quadrant d.instr) (funct d.instr) a
      → exec_found other d (rvc d) s ≡ perform a d s
  unfolding exec_found
  rvc-Access (inl m) c =
      ap (λ (t : Option Found). exec_found other d t s)
        (goes_on d refl refl c ∙ direct d (finds c).2 m refl c)
      ∙ acts_direct m c
  rvc-Access (inr m) c =
      ap (λ (t : Option Found). exec_found other d t s)
        (goes_on d refl refl c ∙ translated d (finds c).2 m refl c)
      ∙ acts_translated m c
