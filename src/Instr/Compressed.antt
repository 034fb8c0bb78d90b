-- ===== src/Instr/Compressed.antt =====
-- The tables of the compressed instructions (isa/riscv64/instr/rvc/decode.h).
use nemu.Base.{List, [], ◌∷◌}
use nemu.Rvc.Decode as Rvc
use nemu.Instr.{Table, Row, tab, id_tab, id_tab_or_stop, found, select, by_mmu_mode}
use nemu.Instr.Ids
use nemu.Instr.Integer.{c_addi_dispatch, c_addiw_dispatch}

abbrev pub c_ldst_direct_rows : List Row
c_ldst_direct_rows =
    tab "010 ??? ??? ?? ??? ??" (found Ids.lw)
    ∷ tab "011 ??? ??? ?? ??? ??" (found Ids.ld)
    ∷ tab "110 ??? ??? ?? ??? ??" (found Ids.sw)
    ∷ tab "111 ??? ??? ?? ??? ??" (found Ids.sd)
    ∷ []

abbrev pub c_ldst_translated_rows : List Row
c_ldst_translated_rows =
    tab "010 ??? ??? ?? ??? ??" (found Ids.lw_mmu)
    ∷ tab "011 ??? ??? ?? ??? ??" (found Ids.ld_mmu)
    ∷ tab "110 ??? ??? ?? ??? ??" (found Ids.sw_mmu)
    ∷ tab "111 ??? ??? ?? ??? ??" (found Ids.sd_mmu)
    ∷ []

unfoldable pub c_ldst : Table
c_ldst = by_mmu_mode c_ldst_direct_rows c_ldst_translated_rows

abbrev pub c_fldst_direct_rows : List Row
c_fldst_direct_rows =
    tab "001 ??? ??? ?? ??? ??" (found Ids.fld) ∷ tab "101 ??? ??? ?? ??? ??" (found Ids.fsd) ∷ []

abbrev pub c_fldst_translated_rows : List Row
c_fldst_translated_rows =
    tab "001 ??? ??? ?? ??? ??" (found Ids.fld_mmu)
    ∷ tab "101 ??? ??? ?? ??? ??" (found Ids.fsd_mmu)
    ∷ []

unfoldable pub c_fldst : Table
c_fldst = by_mmu_mode c_fldst_direct_rows c_fldst_translated_rows

abbrev pub c_li_dispatch_rows : List Row
c_li_dispatch_rows =
    tab "??? 0 ????? 00000 ??" (found Ids.p_li_0)
    ∷ tab "??? 0 ????? 00001 ??" (found Ids.p_li_1)
    ∷ tab "??? ? ????? ????? ??" (found Ids.c_li)
    ∷ []

unfoldable pub c_li_dispatch : Table
c_li_dispatch = select c_li_dispatch_rows (found Ids.inv)

abbrev pub rvc_q1_lui_addi16sp_rows : List Row
rvc_q1_lui_addi16sp_rows =
    id_tab_or_stop "??? ? 00010 ????? ??" (λ d. Rvc.c_addi16sp d.instr) (found Ids.c_addi)
    ∷ id_tab "??? ? ????? ????? ??" (λ d. Rvc.ci_simm_lui d.instr) (found Ids.lui)
    ∷ []

unfoldable pub rvc_q1_lui_addi16sp : Table
rvc_q1_lui_addi16sp = select rvc_q1_lui_addi16sp_rows (found Ids.inv)

abbrev pub rvc_q1_compute_more64_rows : List Row
rvc_q1_compute_more64_rows =
    tab "??? ? ????? 00??? ??" (found Ids.c_sub)
    ∷ tab "??? ? ????? 01??? ??" (found Ids.c_xor)
    ∷ tab "??? ? ????? 10??? ??" (found Ids.c_or)
    ∷ tab "??? ? ????? 11??? ??" (found Ids.c_and)
    ∷ []

unfoldable pub rvc_q1_compute_more64 : Table
rvc_q1_compute_more64 = select rvc_q1_compute_more64_rows (found Ids.inv)

abbrev pub rvc_q1_compute_more32_rows : List Row
rvc_q1_compute_more32_rows =
    tab "??? ? ????? 00??? ??" (found Ids.c_subw)
    ∷ tab "??? ? ????? 01??? ??" (found Ids.c_addw)
    ∷ []

unfoldable pub rvc_q1_compute_more32 : Table
rvc_q1_compute_more32 = select rvc_q1_compute_more32_rows (found Ids.inv)

abbrev pub rvc_q1_compute_more_rows : List Row
rvc_q1_compute_more_rows =
    tab "??? 0 ????? ????? ??" rvc_q1_compute_more64
    ∷ tab "??? 1 ????? ????? ??" rvc_q1_compute_more32
    ∷ []

unfoldable pub rvc_q1_compute_more : Table
rvc_q1_compute_more = select rvc_q1_compute_more_rows (found Ids.inv)

abbrev pub rvc_q1_compute_rows : List Row
rvc_q1_compute_rows =
    id_tab "??? ? 00??? ????? ??" (λ d. Rvc.cb_shift d.instr) (found Ids.c_srli)
    ∷ id_tab "??? ? 01??? ????? ??" (λ d. Rvc.cb_shift d.instr) (found Ids.c_srai)
    ∷ id_tab "??? ? 10??? ????? ??" (λ d. Rvc.cb_andi d.instr) (found Ids.c_andi)
    ∷ id_tab "??? ? 11??? ????? ??" (λ d. Rvc.cs d.instr) rvc_q1_compute_more
    ∷ []

unfoldable pub rvc_q1_compute : Table
rvc_q1_compute = select rvc_q1_compute_rows (found Ids.inv)

abbrev pub rvc_q2_jr_mov_rows : List Row
rvc_q2_jr_mov_rows =
    id_tab "??? ? 00001 00000 ??" (λ d. Rvc.c_jr d.instr) (found Ids.p_ret)
    ∷ id_tab "??? ? ????? 00000 ??" (λ d. Rvc.c_jr d.instr) (found Ids.c_jr)
    ∷ id_tab "??? ? ????? ????? ??" (λ d. Rvc.c_mov d.instr) (found Ids.c_mv)
    ∷ []

unfoldable pub rvc_q2_jr_mov : Table
rvc_q2_jr_mov = select rvc_q2_jr_mov_rows (found Ids.inv)

abbrev pub rvc_q2_jalr_add_rows : List Row
rvc_q2_jalr_add_rows =
    tab "??? ? 00000 00000 ??" (found Ids.inv)
    ∷ id_tab "??? ? 00001 00000 ??" (λ d. Rvc.c_jalr d.instr) (found Ids.jalr)
    ∷ id_tab "??? ? ????? 00000 ??" (λ d. Rvc.c_jalr d.instr) (found Ids.c_jalr)
    ∷ id_tab "??? ? ????? ????? ??" (λ d. Rvc.c_add d.instr) (found Ids.c_add)
    ∷ []

unfoldable pub rvc_q2_jalr_add : Table
rvc_q2_jalr_add = select rvc_q2_jalr_add_rows (found Ids.inv)

abbrev pub rvc_q2_misc_rows : List Row
rvc_q2_misc_rows =
    tab "??? 0 ????? ????? ??" rvc_q2_jr_mov ∷ tab "??? 1 ????? ????? ??" rvc_q2_jalr_add ∷ []

unfoldable pub rvc_q2_misc : Table
rvc_q2_misc = select rvc_q2_misc_rows (found Ids.inv)

abbrev pub rvc_q0_rows : List Row
rvc_q0_rows =
    tab "000 00000000 ??? ??" (found Ids.inv)
    ∷ id_tab_or_stop "000 ???????? ??? ??" (λ d. Rvc.c_addi4spn d.instr) (found Ids.addi)
    ∷ id_tab "001 ??? ??? ?? ??? ??" (λ d. Rvc.c_fld d.instr) c_fldst
    ∷ id_tab "010 ??? ??? ?? ??? ??" (λ d. Rvc.c_lw d.instr) c_ldst
    ∷ id_tab "011 ??? ??? ?? ??? ??" (λ d. Rvc.c_ld d.instr) c_ldst
    ∷ id_tab "101 ??? ??? ?? ??? ??" (λ d. Rvc.c_fsd d.instr) c_fldst
    ∷ id_tab "110 ??? ??? ?? ??? ??" (λ d. Rvc.c_sw d.instr) c_ldst
    ∷ id_tab "111 ??? ??? ?? ??? ??" (λ d. Rvc.c_sd d.instr) c_ldst
    ∷ []

unfoldable pub rvc_q0 : Table
rvc_q0 = select rvc_q0_rows (found Ids.inv)

abbrev pub rvc_q1_rows : List Row
rvc_q1_rows =
    id_tab "000 ? ????? ????? ??" (λ d. Rvc.ci_simm d.instr) c_addi_dispatch
    ∷ id_tab "001 ? ????? ????? ??" (λ d. Rvc.ci_simm d.instr) c_addiw_dispatch
    ∷ id_tab "010 ? ????? ????? ??" (λ d. Rvc.c_li d.instr) c_li_dispatch
    ∷ tab "011 ? ????? ????? ??" rvc_q1_lui_addi16sp
    ∷ tab "100 ? ????? ????? ??" rvc_q1_compute
    ∷ id_tab "101 ??????????? ??" (λ d. Rvc.cj d.pc d.instr) (found Ids.c_j)
    ∷ id_tab "110 ??? ??? ????? ??" (λ d. Rvc.cb d.pc d.instr) (found Ids.c_beqz)
    ∷ id_tab "111 ??? ??? ????? ??" (λ d. Rvc.cb d.pc d.instr) (found Ids.c_bnez)
    ∷ []

unfoldable pub rvc_q1 : Table
rvc_q1 = select rvc_q1_rows (found Ids.inv)

abbrev pub rvc_q2_rows : List Row
rvc_q2_rows =
    id_tab "000 ? ????? ????? ??" (λ d. Rvc.ci_uimm d.instr) (found Ids.c_slli)
    ∷ id_tab "001 ? ????? ????? ??" (λ d. Rvc.c_fldsp d.instr) c_fldst
    ∷ id_tab "010 ? ????? ????? ??" (λ d. Rvc.c_lwsp d.instr) c_ldst
    ∷ id_tab "011 ? ????? ????? ??" (λ d. Rvc.c_ldsp d.instr) c_ldst
    ∷ tab "100 ? ????? ????? ??" rvc_q2_misc
    ∷ id_tab "101 ? ????? ????? ??" (λ d. Rvc.c_fsdsp d.instr) c_fldst
    ∷ id_tab "110 ? ????? ????? ??" (λ d. Rvc.c_swsp d.instr) c_ldst
    ∷ id_tab "111 ? ????? ????? ??" (λ d. Rvc.c_sdsp d.instr) c_ldst
    ∷ []

unfoldable pub rvc_q2 : Table
rvc_q2 = select rvc_q2_rows (found Ids.inv)

abbrev pub rvc_rows : List Row
rvc_rows =
    tab "?????????????? 00" rvc_q0
    ∷ tab "?????????????? 01" rvc_q1
    ∷ tab "?????????????? 10" rvc_q2
    ∷ []

unfoldable pub rvc : Table
rvc = select rvc_rows (found Ids.inv)
