-- ===== src/Instr/Float.antt =====
-- The tables of the floating-point instructions (isa/riscv64/instr/rvf/decode.h, rvd/decode.h). Their
-- operands may be numbers of floating-point registers.
use nemu.Base.{ℕ, not, ◌&&◌, ◌||◌, if◌then◌else◌, List, [], ◌∷◌, ◌==◌, field}
use nemu.Trap.{mmu_direct, mmu_translate}
use nemu.Rvi.Decode.{Operands, rd, rs1, rs2, signed_field}
use nemu.Rvi.Decode as Rvi
use nemu.Instr.{Table, Row, tab, id_tab, found, select}
use nemu.Instr.Ids

unfoldable pub fr : ℕ → Operands
fr w = record { src1 = rs1 w; src2 = rs2 w; dest = rd w }

-- From a floating-point register to an integer register, and back.
unfoldable pub fr2r : ℕ → Operands
fr2r w = record { src1 = rs1 w; src2 = rs2 w; dest = rd w }

unfoldable pub r2fr : ℕ → Operands
r2fr w = record { src1 = rs1 w; src2 = rs2 w; dest = rd w }

unfoldable pub fload_operands : ℕ → Operands
fload_operands w = record { src1 = rs1 w; src2 = signed_field w 20 12; dest = rd w }

unfoldable pub fstore_operands : ℕ → Operands
fstore_operands w = record { src1 = rs1 w; src2 = Rvi.offset_s w; dest = rs2 w }

abbrev pub fmt : ℕ → ℕ
fmt w = field w 25 2

abbrev pub funct5 : ℕ → ℕ
funct5 w = field w 27 5

unfoldable pub fload : Table
fload d =
    if d.fp_enable && (d.mmu_mode == mmu_direct)
    then select
        (tab "??????? ????? ????? 010 ????? ????? ??" (found Ids.flw)
          ∷ tab "??????? ????? ????? 011 ????? ????? ??" (found Ids.fld)
          ∷ [])
        (found Ids.inv) d
    else (if d.fp_enable && (d.mmu_mode == mmu_translate)
        then select
            (tab "??????? ????? ????? 010 ????? ????? ??" (found Ids.flw_mmu)
              ∷ tab "??????? ????? ????? 011 ????? ????? ??" (found Ids.fld_mmu)
              ∷ [])
            (found Ids.inv) d
        else found Ids.inv d)

unfoldable pub fstore : Table
fstore d =
    if d.fp_enable && (d.mmu_mode == mmu_direct)
    then select
        (tab "??????? ????? ????? 010 ????? ????? ??" (found Ids.fsw)
          ∷ tab "??????? ????? ????? 011 ????? ????? ??" (found Ids.fsd)
          ∷ [])
        (found Ids.inv) d
    else (if d.fp_enable && (d.mmu_mode == mmu_translate)
        then select
            (tab "??????? ????? ????? 010 ????? ????? ??" (found Ids.fsw_mmu)
              ∷ tab "??????? ????? ????? 011 ????? ????? ??" (found Ids.fsd_mmu)
              ∷ [])
            (found Ids.inv) d
        else found Ids.inv d)

abbrev pub op_fp_d_rows : List Row
op_fp_d_rows =
    id_tab "00000 ?? ????? ????? ??? ????? ????? ??" (λ d. fr d.instr) (found Ids.faddd)
    ∷ id_tab "00001 ?? ????? ????? ??? ????? ????? ??" (λ d. fr d.instr) (found Ids.fsubd)
    ∷ id_tab "00010 ?? ????? ????? ??? ????? ????? ??" (λ d. fr d.instr) (found Ids.fmuld)
    ∷ id_tab "00011 ?? ????? ????? ??? ????? ????? ??" (λ d. fr d.instr) (found Ids.fdivd)
    ∷ id_tab "01011 ?? 00000 ????? ??? ????? ????? ??" (λ d. fr d.instr) (found Ids.fsqrtd)
    ∷ id_tab "00100 ?? ????? ????? 000 ????? ????? ??" (λ d. fr d.instr) (found Ids.fsgnjd)
    ∷ id_tab "00100 ?? ????? ????? 001 ????? ????? ??" (λ d. fr d.instr) (found Ids.fsgnjnd)
    ∷ id_tab "00100 ?? ????? ????? 010 ????? ????? ??" (λ d. fr d.instr) (found Ids.fsgnjxd)
    ∷ id_tab "00101 ?? ????? ????? 000 ????? ????? ??" (λ d. fr d.instr) (found Ids.fmind)
    ∷ id_tab "00101 ?? ????? ????? 001 ????? ????? ??" (λ d. fr d.instr) (found Ids.fmaxd)
    ∷ id_tab "01000 00 00001 ????? ??? ????? ????? ??" (λ d. fr d.instr) (found Ids.fcvt_s_d)
    ∷ id_tab "01000 01 00000 ????? ??? ????? ????? ??" (λ d. fr d.instr) (found Ids.fcvt_d_s)
    ∷ id_tab "10100 ?? ????? ????? 010 ????? ????? ??" (λ d. fr2r d.instr) (found Ids.feqd)
    ∷ id_tab "10100 ?? ????? ????? 001 ????? ????? ??" (λ d. fr2r d.instr) (found Ids.fltd)
    ∷ id_tab "10100 ?? ????? ????? 000 ????? ????? ??" (λ d. fr2r d.instr) (found Ids.fled)
    ∷ id_tab "11100 ?? 00000 ????? 001 ????? ????? ??" (λ d. fr2r d.instr) (found Ids.fclassd)
    ∷ id_tab "11000 ?? 00000 ????? ??? ????? ????? ??" (λ d. fr2r d.instr) (found Ids.fcvt_w_d)
    ∷ id_tab "11000 ?? 00001 ????? ??? ????? ????? ??" (λ d. fr2r d.instr) (found Ids.fcvt_wu_d)
    ∷ id_tab "11010 ?? 00000 ????? ??? ????? ????? ??" (λ d. r2fr d.instr) (found Ids.fcvt_d_w)
    ∷ id_tab "11010 ?? 00001 ????? ??? ????? ????? ??" (λ d. r2fr d.instr) (found Ids.fcvt_d_wu)
    ∷ id_tab "11000 ?? 00010 ????? ??? ????? ????? ??" (λ d. fr2r d.instr) (found Ids.fcvt_l_d)
    ∷ id_tab "11000 ?? 00011 ????? ??? ????? ????? ??" (λ d. fr2r d.instr) (found Ids.fcvt_lu_d)
    ∷ id_tab "11100 ?? 00000 ????? 000 ????? ????? ??" (λ d. fr2r d.instr) (found Ids.fmv_x_d)
    ∷ id_tab "11010 ?? 00010 ????? ??? ????? ????? ??" (λ d. r2fr d.instr) (found Ids.fcvt_d_l)
    ∷ id_tab "11010 ?? 00011 ????? ??? ????? ????? ??" (λ d. r2fr d.instr) (found Ids.fcvt_d_lu)
    ∷ id_tab "11110 ?? 00000 ????? 000 ????? ????? ??" (λ d. r2fr d.instr) (found Ids.fmv_d_x)
    ∷ []

unfoldable pub op_fp_d : Table
op_fp_d = select op_fp_d_rows (found Ids.inv)

abbrev op_fp_rows : List Row
op_fp_rows =
    id_tab "00000 00 ????? ????? ??? ????? ????? ??" (λ d. fr d.instr) (found Ids.fadds)
    ∷ id_tab "00001 00 ????? ????? ??? ????? ????? ??" (λ d. fr d.instr) (found Ids.fsubs)
    ∷ id_tab "00010 00 ????? ????? ??? ????? ????? ??" (λ d. fr d.instr) (found Ids.fmuls)
    ∷ id_tab "00011 00 ????? ????? ??? ????? ????? ??" (λ d. fr d.instr) (found Ids.fdivs)
    ∷ id_tab "01011 00 00000 ????? ??? ????? ????? ??" (λ d. fr d.instr) (found Ids.fsqrts)
    ∷ id_tab "00100 00 ????? ????? 000 ????? ????? ??" (λ d. fr d.instr) (found Ids.fsgnjs)
    ∷ id_tab "00100 00 ????? ????? 001 ????? ????? ??" (λ d. fr d.instr) (found Ids.fsgnjns)
    ∷ id_tab "00100 00 ????? ????? 010 ????? ????? ??" (λ d. fr d.instr) (found Ids.fsgnjxs)
    ∷ id_tab "00101 00 ????? ????? 000 ????? ????? ??" (λ d. fr d.instr) (found Ids.fmins)
    ∷ id_tab "00101 00 ????? ????? 001 ????? ????? ??" (λ d. fr d.instr) (found Ids.fmaxs)
    ∷ id_tab "11000 00 00000 ????? ??? ????? ????? ??" (λ d. fr2r d.instr) (found Ids.fcvt_w_s)
    ∷ id_tab "11000 00 00001 ????? ??? ????? ????? ??" (λ d. fr2r d.instr) (found Ids.fcvt_wu_s)
    ∷ id_tab "11100 00 00000 ????? 000 ????? ????? ??" (λ d. fr2r d.instr) (found Ids.fmv_x_w)
    ∷ id_tab "10100 00 ????? ????? 010 ????? ????? ??" (λ d. fr2r d.instr) (found Ids.feqs)
    ∷ id_tab "10100 00 ????? ????? 001 ????? ????? ??" (λ d. fr2r d.instr) (found Ids.flts)
    ∷ id_tab "10100 00 ????? ????? 000 ????? ????? ??" (λ d. fr2r d.instr) (found Ids.fles)
    ∷ id_tab "11100 00 00000 ????? 001 ????? ????? ??" (λ d. fr2r d.instr) (found Ids.fclasss)
    ∷ id_tab "11010 00 00000 ????? ??? ????? ????? ??" (λ d. r2fr d.instr) (found Ids.fcvt_s_w)
    ∷ id_tab "11010 00 00001 ????? ??? ????? ????? ??" (λ d. r2fr d.instr) (found Ids.fcvt_s_wu)
    ∷ id_tab "11110 00 00000 ????? 000 ????? ????? ??" (λ d. r2fr d.instr) (found Ids.fmv_w_x)
    ∷ id_tab "11000 00 00010 ????? ??? ????? ????? ??" (λ d. fr2r d.instr) (found Ids.fcvt_l_s)
    ∷ id_tab "11000 00 00011 ????? ??? ????? ????? ??" (λ d. fr2r d.instr) (found Ids.fcvt_lu_s)
    ∷ id_tab "11010 00 00010 ????? ??? ????? ????? ??" (λ d. r2fr d.instr) (found Ids.fcvt_s_l)
    ∷ id_tab "11010 00 00011 ????? ??? ????? ????? ??" (λ d. r2fr d.instr) (found Ids.fcvt_s_lu)
    ∷ []

unfoldable pub op_fp : Table
op_fp d =
    let double = op_fp_d d in
    let single = select op_fp_rows (found Ids.inv) d in
    if not d.fp_enable
    then found Ids.rt_inv d
    else (if ((fmt d.instr == 0) && (funct5 d.instr == 8)) || (fmt d.instr == 1)
        then double
        else single)

abbrev pub fmadd_d_dispatch_rows : List Row
fmadd_d_dispatch_rows =
    tab "????? ?? ????? ????? ??? ????? 10000 11" (found Ids.fmaddd)
    ∷ tab "????? ?? ????? ????? ??? ????? 10001 11" (found Ids.fmsubd)
    ∷ tab "????? ?? ????? ????? ??? ????? 10010 11" (found Ids.fnmsubd)
    ∷ tab "????? ?? ????? ????? ??? ????? 10011 11" (found Ids.fnmaddd)
    ∷ []

unfoldable pub fmadd_d_dispatch : Table
fmadd_d_dispatch = select fmadd_d_dispatch_rows (found Ids.inv)

unfoldable pub fmadd_dispatch : Table
fmadd_dispatch d =
    if not d.fp_enable
    then found Ids.rt_inv d
    else select
        (tab "????? 01 ????? ????? ??? ????? ????? ??" fmadd_d_dispatch
          ∷ tab "????? 00 ????? ????? ??? ????? 10000 ??" (found Ids.fmadds)
          ∷ tab "????? 00 ????? ????? ??? ????? 10001 ??" (found Ids.fmsubs)
          ∷ tab "????? 00 ????? ????? ??? ????? 10010 ??" (found Ids.fnmsubs)
          ∷ tab "????? 00 ????? ????? ??? ????? 10011 ??" (found Ids.fnmadds)
          ∷ [])
        (found Ids.inv) d
