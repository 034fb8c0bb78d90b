-- ===== src/Instr.antt =====
-- The choice of an instruction (include/cpu/decode.h): a table of patterns is gone through in order, the
-- first that matches decodes the operands and goes on with another table or ends with an instruction.
pub mod Ids
pub mod Select
pub mod Integer
pub mod Control
pub mod Multiply
pub mod Compressed
pub mod Float
pub mod Main
pub mod Exec
pub mod Alu
pub mod Op
pub mod OpImm
pub mod Expansion
pub mod Accesses
pub mod Computes
pub mod Shorts
pub mod Stack
pub mod Branches
pub mod Jumps
use Prim.Native.String.{String}
use nemu.Base.{ℕ, Bool, true, false, if◌then◌else◌, Option, none, some, List, [], ◌∷◌, ◌==◌}
use nemu.Expr.Text.{codes}
use nemu.Pattern.{matches}
use nemu.Rvi.Decode.{Operands}
use nemu.Trap.{mmu_direct, mmu_translate}
use nemu.Instr.Ids.{ExecId}
use nemu.Instr.Ids

-- The part of struct Decode that decoding reads and writes, and what isa_mmu_state() and fp_enable() give.
pub record Decode : Type 0 where
  pub pc : ℕ
  pub snpc : ℕ
  pub instr : ℕ
  pub mmu_mode : ℕ
  pub fp_enable : Bool
  pub operands : Operands

-- What decoding finds: the instruction and its operands.
pub record Found : Type 0 where
  pub id : ExecId
  pub operands : Operands

-- `none` is a failed assertion.
abbrev pub Table : Type 0
Table = Decode → Option Found

-- def_THelper of an instruction.
abbrev pub found : ExecId → Table
found id d = some (record { id = id; operands = d.operands })

pub record Row : Type 0 where
  pub pattern_text : List ℕ
  pub body : Table

-- def_INSTR_TAB and def_INSTR_IDTAB, the latter also where decoding the operands may fail.
abbrev pub tab : String → Table → Row
tab text table = record { pattern_text = codes text; body = table }

abbrev pub id_tab : String → (Decode → Operands) → Table → Row
id_tab text decode table = record {
  pattern_text = codes text;
  body = λ d. table (record d { operands = decode d });
}

abbrev pub id_tab_or_stop : String → (Decode → Option Operands) → Table → Row
id_tab_or_stop text decode table = record {
  pattern_text = codes text;
  body = λ d. elim (decode d) [ none ↦ none | some o ↦ table (record d { operands = o }) ];
}

-- The rows of a table in order, and what follows them.
unfoldable pub select : List Row → Table → Table
select [] rest d = rest d
select (r ∷ rows) rest d =
    let later = select rows rest d in if matches r.pattern_text d.instr then r.body d else later

-- One list of rows for each mode of the memory management unit; `assert(0)` in any other.
unfoldable pub by_mmu_mode : List Row → List Row → Table
by_mmu_mode direct translated d =
    if d.mmu_mode == mmu_direct
    then select direct (found Ids.inv) d
    else (if d.mmu_mode == mmu_translate then select translated (found Ids.inv) d else none)
