-- ===== src/Instr/OpImm.antt =====
-- Instructions on a register and an immediate: what the tables choose acts as the operation that the fields
-- name.
use nemu.Base.{
  ℕ, ◌/◌, ◌≡◌, refl, ap, ◌∙◌, arith, Bool, true, false, ◌&&◌, ◌==◌, ◌!=◌, if◌then◌else◌, Option,
  field,
}
use nemu.Base.{bit_and, bit_or, bit_xor, ==_iff, List, [], ◌∷◌}
use nemu.Machine.{Machine, M}
use nemu.Pattern.Fields.{fields}
use nemu.Pattern.Matches.{reverse_onto, bits, are_valid}
use nemu.Rvi.{rtl_imm, rtl_setrelop}
use nemu.Rvi.Ops.{lt, ltu}
use nemu.Rvi.Ops
use nemu.Rvi.Decode.{funct3, funct7, rd, rs1, signed_field, decode_i}
use nemu.Instr.{Decode, Found, found}
use nemu.Instr.Ids.{ExecId}
use nemu.Instr.Ids
use nemu.Instr.Exec.{exec, exec_found}
use nemu.Instr.Select.{
  Known, Fact, fact, nothing, known, part_of, select_fields, are_patterns, guarded-Known,
  select-Known,
}
use nemu.Instr.Integer.{
  op_imm, op_imm_rows, op_imm_short_rows, op_imm32, op_imm32_rows, op_imm32_short_rows,
}
use nemu.Instr.Main.{main, main_rows}

-- The operations of the architecture on a register and an immediate, other than addition, by the opcode,
-- funct3 and funct7. A shift by 32 or more has the lowest bit of funct7 set.
pub data AluImm : ℕ → ℕ → ℕ → (ℕ → ℕ → ℕ) → Type 0 where
  slti : {b : ℕ} → AluImm 4 2 b (rtl_setrelop lt)
  sltui : {b : ℕ} → AluImm 4 3 b (rtl_setrelop ltu)
  xori : {b : ℕ} → AluImm 4 4 b bit_xor
  ori : {b : ℕ} → AluImm 4 6 b bit_or
  andi : {b : ℕ} → AluImm 4 7 b bit_and
  slli : AluImm 4 1 0 Ops.c_shl
  slli_far : AluImm 4 1 1 Ops.c_shl
  srli : AluImm 4 5 0 Ops.c_shr
  srli_far : AluImm 4 5 1 Ops.c_shr
  srai : AluImm 4 5 32 Ops.c_sar
  srai_far : AluImm 4 5 33 Ops.c_sar
  slliw : AluImm 6 1 0 Ops.c_shlw
  srliw : AluImm 6 5 0 Ops.c_shrw
  sraiw : AluImm 6 5 32 Ops.c_sarw

-- What the tables find: a shorter form where the destination is the first source.
unfoldable short_form : {o f3 f7 : ℕ} {f : ℕ → ℕ → ℕ} → AluImm o f3 f7 f → ExecId
short_form slti = Ids.slti
short_form sltui = Ids.sltui
short_form xori = Ids.xori
short_form ori = Ids.ori
short_form andi = Ids.c_andi
short_form slli = Ids.c_slli
short_form slli_far = Ids.c_slli
short_form srli = Ids.c_srli
short_form srli_far = Ids.c_srli
short_form srai = Ids.c_srai
short_form srai_far = Ids.c_srai
short_form slliw = Ids.slliw
short_form srliw = Ids.srliw
short_form sraiw = Ids.sraiw

unfoldable general_form : {o f3 f7 : ℕ} {f : ℕ → ℕ → ℕ} → AluImm o f3 f7 f → ExecId
general_form slti = Ids.slti
general_form sltui = Ids.sltui
general_form xori = Ids.xori
general_form ori = Ids.ori
general_form andi = Ids.andi
general_form slli = Ids.slli
general_form slli_far = Ids.slli
general_form srli = Ids.srli
general_form srli_far = Ids.srli
general_form srai = Ids.srai
general_form srai_far = Ids.srai
general_form slliw = Ids.slliw
general_form srliw = Ids.srliw
general_form sraiw = Ids.sraiw

abbrev with_i : Decode → Decode
with_i d = record d { operands = decode_i d.instr }

abbrev same : Decode → Bool
same d = rd d.instr == rs1 d.instr

functs :
    {w f3 f7 : ℕ}
    → funct3 w ≡ f3
    → funct7 w ≡ f7
    → Known w (fact 12 3 f3 ∷ fact 25 7 f7 ∷ fact 26 6 (f7 / 2) ∷ [])
functs {w} {f3} {f7} e g = known 12 3 e (known 25 7 g (known 26 6 (omega arith) nothing))

in_main :
    {o : ℕ} (d : Decode)
    → field d.instr 2 5 ≡ o
    → main d ≡ select_fields (part_of (fact 2 5 o ∷ []) d.instr) main_rows (found Ids.inv) d
unfolding main are_patterns bits are_valid
in_main d c = select-Known main_rows (found Ids.inv) refl d (known 2 5 c nothing)

in_op_imm :
    {fs : List Fact} (d : Decode)
    → Known d.instr fs
    → op_imm (with_i d) ≡ (
        let general = select_fields (part_of fs d.instr) op_imm_rows (found Ids.inv) (with_i d) in
        if same d
        then select_fields (part_of fs d.instr) op_imm_short_rows (λ _. general) (with_i d)
        else general)
unfolding op_imm are_patterns bits are_valid
in_op_imm d k =
    guarded-Known (same d) op_imm_short_rows op_imm_rows (found Ids.inv) refl refl (with_i d) k

in_op_imm32 :
    {fs : List Fact} (d : Decode)
    → Known d.instr fs
    → op_imm32 (with_i d) ≡ (
        let general = select_fields (part_of fs d.instr) op_imm32_rows (found Ids.inv) (with_i d) in
        if same d && (rd d.instr != 0)
        then select_fields (part_of fs d.instr) op_imm32_short_rows (λ _. general) (with_i d)
        else general)
unfolding op_imm32 are_patterns bits are_valid
in_op_imm32 d k =
    guarded-Known (same d && (rd d.instr != 0)) op_imm32_short_rows op_imm32_rows (found Ids.inv)
      refl refl (with_i d) k

either_way : (x : Option Found) (b c : Bool) → (if b then x else x) ≡ (if c then x else x)
either_way x b c = ground arith

main_finds :
    {o f3 f7 : ℕ} {f : ℕ → ℕ → ℕ} (d : Decode)
    → field d.instr 2 5 ≡ o
    → funct3 d.instr ≡ f3
    → funct7 d.instr ≡ f7
    → (a : AluImm o f3 f7 f)
    → main d
      ≡ (if same d then found (short_form a) (with_i d) else found (general_form a) (with_i d))
unfolding short_form general_form select_fields fields reverse_onto part_of
main_finds d c e g slti = in_main d c ∙ in_op_imm d (functs e g)
main_finds d c e g sltui = in_main d c ∙ in_op_imm d (functs e g)
main_finds d c e g xori = in_main d c ∙ in_op_imm d (functs e g)
main_finds d c e g ori = in_main d c ∙ in_op_imm d (functs e g)
main_finds d c e g andi = in_main d c ∙ in_op_imm d (functs e g)
main_finds d c e g slli = in_main d c ∙ in_op_imm d (functs e g)
main_finds d c e g slli_far = in_main d c ∙ in_op_imm d (functs e g)
main_finds d c e g srli = in_main d c ∙ in_op_imm d (functs e g)
main_finds d c e g srli_far = in_main d c ∙ in_op_imm d (functs e g)
main_finds d c e g srai = in_main d c ∙ in_op_imm d (functs e g)
main_finds d c e g srai_far = in_main d c ∙ in_op_imm d (functs e g)
main_finds d c e g slliw =
    in_main d c ∙ in_op_imm32 d (functs e g) ∙ either_way _ (same d && (rd d.instr != 0)) (same d)
main_finds d c e g srliw =
    in_main d c ∙ in_op_imm32 d (functs e g) ∙ either_way _ (same d && (rd d.instr != 0)) (same d)
main_finds d c e g sraiw =
    in_main d c ∙ in_op_imm32 d (functs e g) ∙ either_way _ (same d && (rd d.instr != 0)) (same d)

module _ (other : ExecId → Decode → M (Unit {0})) (d : Decode) (s : Machine) where
  abbrev imm : ℕ
  imm = signed_field d.instr 20 12

  acts_short :
      {o f3 f7 : ℕ} {f : ℕ → ℕ → ℕ} (a : AluImm o f3 f7 f)
      → rd d.instr ≡ rs1 d.instr
      → exec other (short_form a) (with_i d) s ≡ rtl_imm f (rd d.instr) (rs1 d.instr) imm s
  unfolding short_form exec decode_i
  acts_short slti e = refl
  acts_short sltui e = refl
  acts_short xori e = refl
  acts_short ori e = refl
  acts_short andi e = rw e refl
  acts_short slli e = rw e refl
  acts_short slli_far e = rw e refl
  acts_short srli e = rw e refl
  acts_short srli_far e = rw e refl
  acts_short srai e = rw e refl
  acts_short srai_far e = rw e refl
  acts_short slliw e = refl
  acts_short srliw e = refl
  acts_short sraiw e = refl

  acts :
      {o f3 f7 : ℕ} {f : ℕ → ℕ → ℕ} (a : AluImm o f3 f7 f)
      → exec other (general_form a) (with_i d) s ≡ rtl_imm f (rd d.instr) (rs1 d.instr) imm s
  unfolding general_form exec decode_i
  acts slti = refl
  acts sltui = refl
  acts xori = refl
  acts ori = refl
  acts andi = refl
  acts slli = refl
  acts slli_far = refl
  acts srli = refl
  acts srli_far = refl
  acts srai = refl
  acts srai_far = refl
  acts slliw = refl
  acts srliw = refl
  acts sraiw = refl

  -- An instruction on a register and an immediate, other than an addition, acts as the operation that its
  -- opcode and its fields funct3 and funct7 name, with the immediate and its sign, whichever form the tables
  -- choose.
  pub main-AluImm :
      {f : ℕ → ℕ → ℕ}
      → AluImm (field d.instr 2 5) (funct3 d.instr) (funct7 d.instr) f
      → exec_found other d (main d) s ≡ rtl_imm f (rd d.instr) (rs1 d.instr) imm s
  unfolding exec_found
  main-AluImm {f} a =
      ap (λ (t : Option Found). exec_found other d t s) (main_finds d refl refl refl a)
      ∙ chosen (same d) refl
    where
      chosen :
          (b : Bool)
          → same d ≡ b
          → exec_found other d
              (if b then found (short_form a) (with_i d) else found (general_form a) (with_i d))
              s
            ≡ rtl_imm f (rd d.instr) (rs1 d.instr) imm s
      chosen true y = acts_short a ((==_iff _ _).0 y)
      chosen false n = acts a
