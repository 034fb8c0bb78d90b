-- ===== src/Instr/Multiply.antt =====
-- The tables of multiplication and division (isa/riscv64/instr/rvm/decode.h).
use nemu.Base.{List, [], ◌∷◌}
use nemu.Instr.{Table, Row, tab, found, select}
use nemu.Instr.Ids

abbrev pub rvm_rows : List Row
rvm_rows =
    tab "??????? ????? ????? 000 ????? ????? ??" (found Ids.mul)
    ∷ tab "??????? ????? ????? 001 ????? ????? ??" (found Ids.mulh)
    ∷ tab "??????? ????? ????? 010 ????? ????? ??" (found Ids.mulhsu)
    ∷ tab "??????? ????? ????? 011 ????? ????? ??" (found Ids.mulhu)
    ∷ tab "??????? ????? ????? 100 ????? ????? ??" (found Ids.div)
    ∷ tab "??????? ????? ????? 101 ????? ????? ??" (found Ids.divu)
    ∷ tab "??????? ????? ????? 110 ????? ????? ??" (found Ids.rem)
    ∷ tab "??????? ????? ????? 111 ????? ????? ??" (found Ids.remu)
    ∷ []

unfoldable pub rvm : Table
rvm = select rvm_rows (found Ids.inv)

abbrev pub rvm32_rows : List Row
rvm32_rows =
    tab "??????? ????? ????? 000 ????? ????? ??" (found Ids.mulw)
    ∷ tab "??????? ????? ????? 100 ????? ????? ??" (found Ids.divw)
    ∷ tab "??????? ????? ????? 101 ????? ????? ??" (found Ids.divuw)
    ∷ tab "??????? ????? ????? 110 ????? ????? ??" (found Ids.remw)
    ∷ tab "??????? ????? ????? 111 ????? ????? ??" (found Ids.remuw)
    ∷ []

unfoldable pub rvm32 : Table
rvm32 = select rvm32_rows (found Ids.inv)
