-- ===== src/Cpu/Transfers.antt =====
-- Control transfers are marked, so that the next fetch checks them.
use nemu.Base.{ℕ, ◌≡◌, refl, Bool, true, false, ◌&&◌, ◌==◌, if◌then◌else◌}
use nemu.Base.{Option, some, field}
use nemu.Dasics.{CfiType, cfi_branch, cfi_jump}
use nemu.Rvi.Decode.{funct3, rd, rs1, rs2, funct7, decode_i}
use nemu.Rvi.Ops.{Relop}
use nemu.Pattern.Fields.{fields}
use nemu.Pattern.Matches.{reverse_onto, bits, are_valid}
use nemu.Instr.{Decode, Found, found}
use nemu.Instr.Ids
use nemu.Instr.Select.{known, nothing, part_of, select_fields, are_patterns, select-Known}
use nemu.Instr.Main.{main, main_rows, dasicscall_j}
use nemu.Instr.Branches.{
  Condition, beq, bne, blt, bge, bltu, bgeu, against_zero, from_zero, general_branch, branch_finds,
}
use nemu.Instr.Jumps.{jal_finds, jalr_finds}
use nemu.Cpu.{cfi_of}

-- What the table finds is a transfer of this kind.
abbrev pub Finds : Decode → CfiType → Type 0
Finds d t = (f : Found) × (main d ≡ some f) × (cfi_of f.id ≡ t)

-- The instructions of the architecture that transfer control, by opcode and funct3, and the two calls of
-- DASICS.
pub data Transfer : ℕ → ℕ → CfiType → Type 0 where
  branch : {f3 : ℕ} {r : Relop} → Condition f3 r → Transfer 0x18 f3 cfi_branch
  jump_and_link : {f3 : ℕ} → Transfer 0x1b f3 cfi_jump
  jump_register : Transfer 0x19 0 cfi_jump
  dasics_call : Transfer 0x02 0 cfi_jump
  dasics_call_register : Transfer 0x02 1 cfi_jump

dasics_call_finds :
    (d : Decode)
    → field d.instr 2 5 ≡ 0x02
    → funct3 d.instr ≡ 0
    → main d ≡ found Ids.dasicscall_j (record d { operands = dasicscall_j d.pc d.snpc d.instr })
unfolding main select_fields fields reverse_onto part_of are_patterns bits are_valid
dasics_call_finds d c e =
    select-Known main_rows (found Ids.inv) refl d (known 2 5 c (known 12 3 e nothing))

dasics_call_register_finds :
    (d : Decode)
    → field d.instr 2 5 ≡ 0x02
    → funct3 d.instr ≡ 1
    → main d ≡ found Ids.dasicscall_jr (record d { operands = decode_i d.instr })
unfolding main select_fields fields reverse_onto part_of are_patterns bits are_valid
dasics_call_register_finds d c e =
    select-Known main_rows (found Ids.inv) refl d (known 2 5 c (known 12 3 e nothing))

marks_against_zero :
    {f3 : ℕ} {r : Relop} (a : Condition f3 r) → cfi_of (against_zero a) ≡ cfi_branch
unfolding cfi_of against_zero
marks_against_zero beq = refl
marks_against_zero bne = refl
marks_against_zero blt = refl
marks_against_zero bge = refl
marks_against_zero bltu = refl
marks_against_zero bgeu = refl

marks_from_zero : {f3 : ℕ} {r : Relop} (a : Condition f3 r) → cfi_of (from_zero a) ≡ cfi_branch
unfolding cfi_of from_zero
marks_from_zero beq = refl
marks_from_zero bne = refl
marks_from_zero blt = refl
marks_from_zero bge = refl
marks_from_zero bltu = refl
marks_from_zero bgeu = refl

marks_general : {f3 : ℕ} {r : Relop} (a : Condition f3 r) → cfi_of (general_branch a) ≡ cfi_branch
unfolding cfi_of general_branch
marks_general beq = refl
marks_general bne = refl
marks_general blt = refl
marks_general bge = refl
marks_general bltu = refl
marks_general bgeu = refl

-- One of three forms is found, and each is marked.
pub one_of :
    (b c : Bool) (x y z : Found) {t : CfiType} {o : Option Found}
    → o ≡ (if b then some x else if c then some y else some z)
    → cfi_of x.id ≡ t
    → cfi_of y.id ≡ t
    → cfi_of z.id ≡ t
    → (f : Found) × (o ≡ some f) × (cfi_of f.id ≡ t)
one_of true c x y z e p q r = (x, e, p)
one_of false true x y z e p q r = (y, e, q)
one_of false false x y z e p q r = (z, e, r)

pub main-Condition_mark :
    {r : Relop} {f3 : ℕ} (d : Decode)
    → field d.instr 2 5 ≡ 0x18
    → funct3 d.instr ≡ f3
    → Condition f3 r
    → Finds d cfi_branch
main-Condition_mark d c e a =
    one_of ((rs2 d.instr == 0) && true) ((rs1 d.instr == 0) && true) _ _ _ (branch_finds d c e a)
      (marks_against_zero a) (marks_from_zero a) (marks_general a)

-- Every branch and jump of 32 bits, the two calls of DASICS included, is found as an instruction that the check of transfers knows as one of
-- its kind, whichever form the tables choose.
pub main-Transfer :
    (d : Decode) {t : CfiType} → Transfer (field d.instr 2 5) (funct3 d.instr) t → Finds d t
unfolding cfi_of
main-Transfer d a = go refl refl a
  where
    go :
        {o f3 : ℕ} {t : CfiType}
        → field d.instr 2 5 ≡ o
        → funct3 d.instr ≡ f3
        → Transfer o f3 t
        → Finds d t
    go c e (branch a) = main-Condition_mark d c e a
    go c e jump_and_link =
        one_of ((rd d.instr == 0) && true) ((rd d.instr == 1) && true) _ _ _ (jal_finds d c) refl
          refl refl
    go c e dasics_call = (_, dasics_call_finds d c e, refl)
    go c e dasics_call_register = (_, dasics_call_register_finds d c e, refl)
    go c e jump_register =
        one_of
          ((rd d.instr == 0)
            && ((rs1 d.instr == 1) && ((rs2 d.instr == 0) && (funct7 d.instr == 0))))
          ((rd d.instr == 0) && ((rs2 d.instr == 0) && (funct7 d.instr == 0))) _ _ _
          (jalr_finds d c e) refl refl refl
