-- ===== src/Cpu/Operations.antt =====
-- Operations on registers are no transfers, so that the next fetch checks nothing.
use nemu.Base.{ℕ, ◌≡◌, refl, Bool, true, false, ◌==◌, if◌then◌else◌, field, some}
use nemu.Dasics.{cfi_none}
use nemu.Rvi.Decode.{funct3, funct7, rd, rs1}
use nemu.Instr.{Decode, Found}
use nemu.Instr.Alu.{Alu, short_form, general_form}
use nemu.Instr.Alu.{
  add, sub, sll, slt, sltu, xor, srl, sra, or, and, addw, subw, sllw, srlw, sraw, mul, mulh, mulhsu,
  mulhu, div, divu, rem, remu, mulw, divw, divuw, remw, remuw,
}
use nemu.Instr.Op.{main_finds}
use nemu.Instr.Main.{main}
use nemu.Cpu.{cfi_of}
use nemu.Cpu.Transfers.{Finds}

marks_short : {o f3 f7 : ℕ} {f : ℕ → ℕ → ℕ} (a : Alu o f3 f7 f) → cfi_of (short_form a) ≡ cfi_none
unfolding cfi_of short_form
marks_short add = refl
marks_short sub = refl
marks_short sll = refl
marks_short slt = refl
marks_short sltu = refl
marks_short xor = refl
marks_short srl = refl
marks_short sra = refl
marks_short or = refl
marks_short and = refl
marks_short addw = refl
marks_short subw = refl
marks_short sllw = refl
marks_short srlw = refl
marks_short sraw = refl
marks_short mul = refl
marks_short mulh = refl
marks_short mulhsu = refl
marks_short mulhu = refl
marks_short div = refl
marks_short divu = refl
marks_short rem = refl
marks_short remu = refl
marks_short mulw = refl
marks_short divw = refl
marks_short divuw = refl
marks_short remw = refl
marks_short remuw = refl

marks_general :
    {o f3 f7 : ℕ} {f : ℕ → ℕ → ℕ} (a : Alu o f3 f7 f) → cfi_of (general_form a) ≡ cfi_none
unfolding cfi_of general_form
marks_general add = refl
marks_general sub = refl
marks_general sll = refl
marks_general slt = refl
marks_general sltu = refl
marks_general xor = refl
marks_general srl = refl
marks_general sra = refl
marks_general or = refl
marks_general and = refl
marks_general addw = refl
marks_general subw = refl
marks_general sllw = refl
marks_general srlw = refl
marks_general sraw = refl
marks_general mul = refl
marks_general mulh = refl
marks_general mulhsu = refl
marks_general mulhu = refl
marks_general div = refl
marks_general divu = refl
marks_general rem = refl
marks_general remu = refl
marks_general mulw = refl
marks_general divw = refl
marks_general divuw = refl
marks_general remw = refl
marks_general remuw = refl

pub main-Alu_mark :
    (d : Decode) {f : ℕ → ℕ → ℕ}
    → Alu (field d.instr 2 5) (funct3 d.instr) (funct7 d.instr) f
    → Finds d cfi_none
main-Alu_mark d a =
    go (rd d.instr == rs1 d.instr) _ _ (main_finds d refl refl refl a) (marks_short a)
      (marks_general a)
  where
    go :
        (b : Bool) (x y : Found)
        → main d ≡ (if b then some x else some y)
        → cfi_of x.id ≡ cfi_none
        → cfi_of y.id ≡ cfi_none
        → Finds d cfi_none
    go true x y e p q = (x, e, p)
    go false x y e p q = (y, e, q)
