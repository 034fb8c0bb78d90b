-- ===== src/Instr/Op.antt =====
-- Instructions on two registers: what the tables choose acts as the operation that the fields name.
use nemu.Base.{
  ℕ, ◌%◌, ◌≡◌, refl, ap, ◌∙◌, arith, Bool, true, false, ◌==◌, if◌then◌else◌, Option, field,
}
use nemu.Base.{==_iff, List, [], ◌∷◌}
use nemu.Machine.{Machine, M}
use nemu.Pattern.Fields.{fields}
use nemu.Pattern.Matches.{reverse_onto, bits, are_valid}
use nemu.Rvi.{rtl_reg}
use nemu.Rvi.Decode.{funct3, funct7, rd, rs1, rs2, decode_r}
use nemu.Instr.{Decode, Found, found}
use nemu.Instr.Ids.{ExecId}
use nemu.Instr.Ids
use nemu.Instr.Exec.{exec, exec_found}
use nemu.Instr.Alu.{Alu, short_form, general_form}
use nemu.Instr.Alu.{
  add, sub, sll, slt, sltu, xor, srl, sra, or, and, addw, subw, sllw, srlw, sraw, mul, mulh, mulhsu,
  mulhu, div, divu, rem, remu, mulw, divw, divuw, remw, remuw,
}
use nemu.Instr.Select.{
  Fact, Known, fact, nothing, ◌also◌, part_of, select_fields, are_patterns, guarded-Known,
  select-Known,
}
use nemu.Instr.Integer.{op, op_rows, op_short_rows, op32, op32_rows, op32_short_rows}
use nemu.Instr.Multiply.{rvm, rvm_rows, rvm32, rvm32_rows}
use nemu.Instr.Main.{main, main_rows}

pub functs :
    {w o f3 f7 : ℕ}
    → field w 2 5 ≡ o
    → funct3 w ≡ f3
    → funct7 w ≡ f7
    → Known w (fact 2 5 o ∷ fact 12 3 f3 ∷ fact 25 7 f7 ∷ fact 25 5 (f7 % 32) ∷ [])
functs {w} {f7} c e g = c also e also g also omega arith also nothing

abbrev with_r : Decode → Decode
with_r d = record d { operands = decode_r d.instr }

abbrev same : Decode → Bool
same d = rd d.instr == rs1 d.instr

in_main :
    {fs : List Fact} (d : Decode)
    → Known d.instr fs
    → main d ≡ select_fields (part_of fs d.instr) main_rows (found Ids.inv) d
unfolding main are_patterns bits are_valid
in_main d k = select-Known main_rows (found Ids.inv) refl d k

in_op :
    {fs : List Fact} (d : Decode)
    → Known d.instr fs
    → op (with_r d) ≡ (
        let general = select_fields (part_of fs d.instr) op_rows (found Ids.inv) (with_r d) in
        if same d
        then select_fields (part_of fs d.instr) op_short_rows (λ _. general) (with_r d)
        else general)
unfolding op are_patterns bits are_valid
in_op d k = guarded-Known (same d) op_short_rows op_rows (found Ids.inv) refl refl (with_r d) k

in_op32 :
    {fs : List Fact} (d : Decode)
    → Known d.instr fs
    → op32 (with_r d) ≡ (
        let general = select_fields (part_of fs d.instr) op32_rows (found Ids.inv) (with_r d) in
        if same d
        then select_fields (part_of fs d.instr) op32_short_rows (λ _. general) (with_r d)
        else general)
unfolding op32 are_patterns bits are_valid
in_op32 d k =
    guarded-Known (same d) op32_short_rows op32_rows (found Ids.inv) refl refl (with_r d) k

in_rvm :
    {fs : List Fact} (d : Decode)
    → Known d.instr fs
    → rvm (with_r d) ≡ select_fields (part_of fs d.instr) rvm_rows (found Ids.inv) (with_r d)
unfolding rvm are_patterns bits are_valid
in_rvm d k = select-Known rvm_rows (found Ids.inv) refl (with_r d) k

in_rvm32 :
    {fs : List Fact} (d : Decode)
    → Known d.instr fs
    → rvm32 (with_r d) ≡ select_fields (part_of fs d.instr) rvm32_rows (found Ids.inv) (with_r d)
unfolding rvm32 are_patterns bits are_valid
in_rvm32 d k = select-Known rvm32_rows (found Ids.inv) refl (with_r d) k

either_way : {x : Option Found} (b : Bool) → x ≡ (if b then x else x)
either_way b = ground arith

pub main_finds :
    {o f3 f7 : ℕ} {f : ℕ → ℕ → ℕ} (d : Decode)
    → field d.instr 2 5 ≡ o
    → funct3 d.instr ≡ f3
    → funct7 d.instr ≡ f7
    → (a : Alu o f3 f7 f)
    → main d
      ≡ (if same d then found (short_form a) (with_r d) else found (general_form a) (with_r d))
unfolding main op op32 rvm rvm32 short_form general_form select_fields fields reverse_onto part_of
    are_patterns bits are_valid
main_finds d c e g add = in_main d (functs c e g) ∙ in_op d (functs c e g)
main_finds d c e g sub = in_main d (functs c e g) ∙ in_op d (functs c e g)
main_finds d c e g sll = in_main d (functs c e g) ∙ in_op d (functs c e g)
main_finds d c e g slt = in_main d (functs c e g) ∙ in_op d (functs c e g)
main_finds d c e g sltu = in_main d (functs c e g) ∙ in_op d (functs c e g)
main_finds d c e g xor = in_main d (functs c e g) ∙ in_op d (functs c e g)
main_finds d c e g srl = in_main d (functs c e g) ∙ in_op d (functs c e g)
main_finds d c e g sra = in_main d (functs c e g) ∙ in_op d (functs c e g)
main_finds d c e g or = in_main d (functs c e g) ∙ in_op d (functs c e g)
main_finds d c e g and = in_main d (functs c e g) ∙ in_op d (functs c e g)
main_finds d c e g addw = in_main d (functs c e g) ∙ in_op32 d (functs c e g)
main_finds d c e g subw = in_main d (functs c e g) ∙ in_op32 d (functs c e g)
main_finds d c e g sllw = in_main d (functs c e g) ∙ in_op32 d (functs c e g)
main_finds d c e g srlw = in_main d (functs c e g) ∙ in_op32 d (functs c e g)
main_finds d c e g sraw = in_main d (functs c e g) ∙ in_op32 d (functs c e g)
main_finds d c e g mul = in_main d (functs c e g) ∙ in_rvm d (functs c e g) ∙ either_way (same d)
main_finds d c e g mulh = in_main d (functs c e g) ∙ in_rvm d (functs c e g) ∙ either_way (same d)
main_finds d c e g mulhsu = in_main d (functs c e g) ∙ in_rvm d (functs c e g) ∙ either_way (same d)
main_finds d c e g mulhu = in_main d (functs c e g) ∙ in_rvm d (functs c e g) ∙ either_way (same d)
main_finds d c e g div = in_main d (functs c e g) ∙ in_rvm d (functs c e g) ∙ either_way (same d)
main_finds d c e g divu = in_main d (functs c e g) ∙ in_rvm d (functs c e g) ∙ either_way (same d)
main_finds d c e g rem = in_main d (functs c e g) ∙ in_rvm d (functs c e g) ∙ either_way (same d)
main_finds d c e g remu = in_main d (functs c e g) ∙ in_rvm d (functs c e g) ∙ either_way (same d)
main_finds d c e g mulw = in_main d (functs c e g) ∙ in_rvm32 d (functs c e g) ∙ either_way (same d)
main_finds d c e g divw = in_main d (functs c e g) ∙ in_rvm32 d (functs c e g) ∙ either_way (same d)
main_finds d c e g divuw =
    in_main d (functs c e g) ∙ in_rvm32 d (functs c e g) ∙ either_way (same d)
main_finds d c e g remw = in_main d (functs c e g) ∙ in_rvm32 d (functs c e g) ∙ either_way (same d)
main_finds d c e g remuw =
    in_main d (functs c e g) ∙ in_rvm32 d (functs c e g) ∙ either_way (same d)

module _ (other : ExecId → Decode → M (Unit {0})) (d : Decode) (s : Machine) where
  acts_short :
      {o f3 f7 : ℕ} {f : ℕ → ℕ → ℕ} (a : Alu o f3 f7 f)
      → rd d.instr ≡ rs1 d.instr
      → exec other (short_form a) (with_r d) s
        ≡ rtl_reg f (rd d.instr) (rs1 d.instr) (rs2 d.instr) s
  unfolding short_form exec decode_r
  acts_short add e = rw e refl
  acts_short sub e = rw e refl
  acts_short sll e = refl
  acts_short slt e = refl
  acts_short sltu e = refl
  acts_short xor e = rw e refl
  acts_short srl e = refl
  acts_short sra e = refl
  acts_short or e = rw e refl
  acts_short and e = rw e refl
  acts_short addw e = rw e refl
  acts_short subw e = rw e refl
  acts_short sllw e = refl
  acts_short srlw e = refl
  acts_short sraw e = refl
  acts_short mul e = refl
  acts_short mulh e = refl
  acts_short mulhsu e = refl
  acts_short mulhu e = refl
  acts_short div e = refl
  acts_short divu e = refl
  acts_short rem e = refl
  acts_short remu e = refl
  acts_short mulw e = refl
  acts_short divw e = refl
  acts_short divuw e = refl
  acts_short remw e = refl
  acts_short remuw e = refl

  acts :
      {o f3 f7 : ℕ} {f : ℕ → ℕ → ℕ} (a : Alu o f3 f7 f)
      → exec other (general_form a) (with_r d) s
        ≡ rtl_reg f (rd d.instr) (rs1 d.instr) (rs2 d.instr) s
  unfolding general_form exec decode_r
  acts add = refl
  acts sub = refl
  acts sll = refl
  acts slt = refl
  acts sltu = refl
  acts xor = refl
  acts srl = refl
  acts sra = refl
  acts or = refl
  acts and = refl
  acts addw = refl
  acts subw = refl
  acts sllw = refl
  acts srlw = refl
  acts sraw = refl
  acts mul = refl
  acts mulh = refl
  acts mulhsu = refl
  acts mulhu = refl
  acts div = refl
  acts divu = refl
  acts rem = refl
  acts remu = refl
  acts mulw = refl
  acts divw = refl
  acts divuw = refl
  acts remw = refl
  acts remuw = refl

  -- An instruction on two registers, of 32 bits, acts as the operation that its opcode and its fields funct3
  -- and funct7 name, on the registers that its other fields name, whichever form the tables choose.
  pub main-Alu :
      {f : ℕ → ℕ → ℕ}
      → Alu (field d.instr 2 5) (funct3 d.instr) (funct7 d.instr) f
      → exec_found other d (main d) s ≡ rtl_reg f (rd d.instr) (rs1 d.instr) (rs2 d.instr) s
  unfolding exec_found
  main-Alu {f} a =
      ap (λ (t : Option Found). exec_found other d t s) (main_finds d refl refl refl a)
      ∙ chosen (same d) refl
    where
      chosen :
          (b : Bool)
          → same d ≡ b
          → exec_found other d
              (if b then found (short_form a) (with_r d) else found (general_form a) (with_r d))
              s
            ≡ rtl_reg f (rd d.instr) (rs1 d.instr) (rs2 d.instr) s
      chosen true y = acts_short a ((==_iff _ _).0 y)
      chosen false n = acts a
