-- ===== src/Instr/Branches.antt =====
-- Branches: what the tables choose acts as the general instruction.
use nemu.Base.{ℕ, ◌+◌, ◌≡◌, refl, ap, ◌∙◌, arith, Bool, true, false, ◌&&◌, ◌==◌, if◌then◌else◌}
use nemu.Base.{Option, field, u64, ==_iff, [], ◌∷◌}
use nemu.Machine.{Machine, M}
use nemu.Pattern.Fields.{fields}
use nemu.Pattern.Matches.{reverse_onto, bits, are_valid}
use nemu.Rvi.{rtl_jrelop}
use nemu.Rvi.Ops.{Relop, lt, ge, eq, ne, ltu, geu}
use nemu.Rvi.Decode.{funct3, rs1, rs2, offset_b, decode_b}
use nemu.Instr.{Decode, Found, found}
use nemu.Instr.Ids.{ExecId}
use nemu.Instr.Ids
use nemu.Instr.Exec.{exec, exec_found}
use nemu.Instr.Select.{fact, nothing, ◌also◌, part_of, select_fields, are_patterns, select-Known}
use nemu.Instr.Control.{branch, branch_rows}
use nemu.Instr.Main.{main, main_rows}

-- The conditions of branches, by funct3.
pub data Condition : ℕ → Relop → Type 0 where
  beq : Condition 0 eq
  bne : Condition 1 ne
  blt : Condition 4 lt
  bge : Condition 5 ge
  bltu : Condition 6 ltu
  bgeu : Condition 7 geu

abbrev with_b : Decode → Decode
with_b d = record d { operands = decode_b d.pc d.instr }

-- The form that compares the first register with zero, the one that compares zero with the second, and
-- the general one.
unfoldable pub against_zero : {f3 : ℕ} {r : Relop} → Condition f3 r → ExecId
against_zero beq = Ids.c_beqz
against_zero bne = Ids.c_bnez
against_zero blt = Ids.p_bltz
against_zero bge = Ids.p_bgez
against_zero bltu = Ids.bltu
against_zero bgeu = Ids.bgeu

unfoldable pub from_zero : {f3 : ℕ} {r : Relop} → Condition f3 r → ExecId
from_zero beq = Ids.beq
from_zero bne = Ids.bne
from_zero blt = Ids.p_bgtz
from_zero bge = Ids.p_blez
from_zero bltu = Ids.bltu
from_zero bgeu = Ids.bgeu

unfoldable pub general_branch : {f3 : ℕ} {r : Relop} → Condition f3 r → ExecId
general_branch beq = Ids.beq
general_branch bne = Ids.bne
general_branch blt = Ids.blt
general_branch bge = Ids.bge
general_branch bltu = Ids.bltu
general_branch bgeu = Ids.bgeu

in_main :
    (o f3 : ℕ) (d : Decode)
    → field d.instr 2 5 ≡ o
    → funct3 d.instr ≡ f3
    → main d
      ≡ select_fields (part_of (fact 2 5 o ∷ fact 12 3 f3 ∷ []) d.instr) main_rows (found Ids.inv) d
unfolding main are_patterns bits are_valid
in_main o f3 d c e = select-Known main_rows (found Ids.inv) refl d (c also e also nothing)

in_branch :
    (f3 : ℕ) (d : Decode)
    → funct3 d.instr ≡ f3
    → branch (with_b d)
      ≡ select_fields (part_of (fact 12 3 f3 ∷ []) d.instr) branch_rows (found Ids.inv) (with_b d)
unfolding branch are_patterns bits are_valid
in_branch f3 d e = select-Known branch_rows (found Ids.inv) refl (with_b d) (e also nothing)

either_way : {x : Option Found} (b c : Bool) → x ≡ (if b then x else if c then x else x)
either_way b c = ground arith

or_else :
    (x y : Option Found) (b c : Bool) → (if b then x else y) ≡ (if b then x else if c then y else y)
or_else x y b c = ground arith

pub branch_finds :
    {f3 : ℕ} {r : Relop} (d : Decode)
    → field d.instr 2 5 ≡ 0x18
    → funct3 d.instr ≡ f3
    → (a : Condition f3 r)
    → main d ≡ (
        if (rs2 d.instr == 0) && true
        then found (against_zero a) (with_b d)
        else if (rs1 d.instr == 0) && true
        then found (from_zero a) (with_b d)
        else found (general_branch a) (with_b d))
unfolding main branch against_zero from_zero general_branch select_fields fields reverse_onto
    part_of
branch_finds d c e beq =
    in_main 0x18 _ d c e
    ∙ in_branch 0 d e
    ∙ or_else _ _ ((rs2 d.instr == 0) && true) ((rs1 d.instr == 0) && true)
branch_finds d c e bne =
    in_main 0x18 _ d c e
    ∙ in_branch 1 d e
    ∙ or_else _ _ ((rs2 d.instr == 0) && true) ((rs1 d.instr == 0) && true)
branch_finds d c e blt = in_main 0x18 _ d c e ∙ in_branch 4 d e
branch_finds d c e bge = in_main 0x18 _ d c e ∙ in_branch 5 d e
branch_finds d c e bltu =
    in_main 0x18 _ d c e
    ∙ in_branch 6 d e
    ∙ either_way ((rs2 d.instr == 0) && true) ((rs1 d.instr == 0) && true)
branch_finds d c e bgeu =
    in_main 0x18 _ d c e
    ∙ in_branch 7 d e
    ∙ either_way ((rs2 d.instr == 0) && true) ((rs1 d.instr == 0) && true)

module _ (other : ExecId → Decode → M (Unit {0})) (d : Decode) (s : Machine) where
  acts_against_zero :
      {f3 : ℕ} {r : Relop} (a : Condition f3 r)
      → rs2 d.instr ≡ 0
      → exec other (against_zero a) (with_b d) s
        ≡ rtl_jrelop r (rs1 d.instr) (rs2 d.instr) (u64 (d.pc + offset_b d.instr)) d.snpc s
  unfolding against_zero exec decode_b
  acts_against_zero beq e = rw e refl
  acts_against_zero bne e = rw e refl
  acts_against_zero blt e = rw e refl
  acts_against_zero bge e = rw e refl
  acts_against_zero bltu e = refl
  acts_against_zero bgeu e = refl

  acts_from_zero :
      {f3 : ℕ} {r : Relop} (a : Condition f3 r)
      → rs1 d.instr ≡ 0
      → exec other (from_zero a) (with_b d) s
        ≡ rtl_jrelop r (rs1 d.instr) (rs2 d.instr) (u64 (d.pc + offset_b d.instr)) d.snpc s
  unfolding from_zero exec decode_b
  acts_from_zero beq e = refl
  acts_from_zero bne e = refl
  acts_from_zero blt e = rw e refl
  acts_from_zero bge e = rw e refl
  acts_from_zero bltu e = refl
  acts_from_zero bgeu e = refl

  acts_general :
      {f3 : ℕ} {r : Relop} (a : Condition f3 r)
      → exec other (general_branch a) (with_b d) s
        ≡ rtl_jrelop r (rs1 d.instr) (rs2 d.instr) (u64 (d.pc + offset_b d.instr)) d.snpc s
  unfolding general_branch exec decode_b
  acts_general beq = refl
  acts_general bne = refl
  acts_general blt = refl
  acts_general bge = refl
  acts_general bltu = refl
  acts_general bgeu = refl

  -- A branch goes to the target that its offset names where the condition of its field funct3 holds of its two
  -- registers, and to the next instruction otherwise, whichever form the tables choose.
  pub main-Condition :
      {r : Relop}
      → field d.instr 2 5 ≡ 0x18
      → Condition (funct3 d.instr) r
      → exec_found other d (main d) s
        ≡ rtl_jrelop r (rs1 d.instr) (rs2 d.instr) (u64 (d.pc + offset_b d.instr)) d.snpc s
  unfolding exec_found
  main-Condition {r} c a =
      ap (λ (t : Option Found). exec_found other d t s) (branch_finds d c refl a)
      ∙ chosen (rs2 d.instr == 0) (rs1 d.instr == 0) refl refl
    where
      chosen :
          (b c : Bool)
          → (rs2 d.instr == 0) ≡ b
          → (rs1 d.instr == 0) ≡ c
          → exec_found other d
              (if b && true
                then found (against_zero a) (with_b d)
                else if c && true
                then found (from_zero a) (with_b d)
                else found (general_branch a) (with_b d))
              s
            ≡ rtl_jrelop r (rs1 d.instr) (rs2 d.instr) (u64 (d.pc + offset_b d.instr)) d.snpc s
      chosen true c y z = acts_against_zero a ((==_iff _ _).0 y)
      chosen false true y z = acts_from_zero a ((==_iff _ _).0 z)
      chosen false false y z = acts_general a
