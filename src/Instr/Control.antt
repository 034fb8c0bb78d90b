-- ===== src/Instr/Control.antt =====
-- The tables of branches, jumps and fences (isa/riscv64/instr/rvi/decode.h).
use nemu.Base.{List, [], ◌∷◌}
use nemu.Instr.{Table, Row, tab, found, select}
use nemu.Instr.Ids

abbrev pub branch_rows : List Row
branch_rows =
    tab "??????? 00000 ????? 000 ????? ????? ??" (found Ids.c_beqz)
    ∷ tab "??????? 00000 ????? 001 ????? ????? ??" (found Ids.c_bnez)
    ∷ tab "??????? 00000 ????? 100 ????? ????? ??" (found Ids.p_bltz)
    ∷ tab "??????? 00000 ????? 101 ????? ????? ??" (found Ids.p_bgez)
    ∷ tab "??????? ????? 00000 100 ????? ????? ??" (found Ids.p_bgtz)
    ∷ tab "??????? ????? 00000 101 ????? ????? ??" (found Ids.p_blez)
    ∷ tab "??????? ????? ????? 000 ????? ????? ??" (found Ids.beq)
    ∷ tab "??????? ????? ????? 001 ????? ????? ??" (found Ids.bne)
    ∷ tab "??????? ????? ????? 100 ????? ????? ??" (found Ids.blt)
    ∷ tab "??????? ????? ????? 101 ????? ????? ??" (found Ids.bge)
    ∷ tab "??????? ????? ????? 110 ????? ????? ??" (found Ids.bltu)
    ∷ tab "??????? ????? ????? 111 ????? ????? ??" (found Ids.bgeu)
    ∷ []

unfoldable pub branch : Table
branch = select branch_rows (found Ids.inv)

abbrev pub jal_dispatch_rows : List Row
jal_dispatch_rows =
    tab "??????? ????? ????? ??? 00000 ????? ??" (found Ids.c_j)
    ∷ tab "??????? ????? ????? ??? 00001 ????? ??" (found Ids.p_jal)
    ∷ tab "??????? ????? ????? ??? ????? ????? ??" (found Ids.jal)
    ∷ []

unfoldable pub jal_dispatch : Table
jal_dispatch = select jal_dispatch_rows (found Ids.inv)

abbrev pub jalr_dispatch_rows : List Row
jalr_dispatch_rows =
    tab "0000000 00000 00001 ??? 00000 ????? ??" (found Ids.p_ret)
    ∷ tab "0000000 00000 ????? ??? 00000 ????? ??" (found Ids.c_jr)
    ∷ tab "??????? ????? ????? 000 ????? ????? ??" (found Ids.jalr)
    ∷ []

unfoldable pub jalr_dispatch : Table
jalr_dispatch = select jalr_dispatch_rows (found Ids.inv)

abbrev pub mem_fence_rows : List Row
mem_fence_rows =
    tab "??????? ????? ????? 000 ????? ????? ??" (found Ids.fence)
    ∷ tab "??????? ????? ????? 001 ????? ????? ??" (found Ids.fence_i)
    ∷ []

unfoldable pub mem_fence : Table
mem_fence = select mem_fence_rows (found Ids.inv)
