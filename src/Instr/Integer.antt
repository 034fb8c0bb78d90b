-- ===== src/Instr/Integer.antt =====
-- The tables of the integer instructions for computation, loads and stores
-- (isa/riscv64/instr/rvi/decode.h).
use nemu.Base.{ℕ, Bool, ◌&&◌, ◌-◌, ◌^◌, if◌then◌else◌, List, [], ◌∷◌, ◌==◌, ◌!=◌}
use nemu.Rvi.Decode.{rd, rs1}
use nemu.Instr.{Table, Row, tab, found, select, by_mmu_mode}
use nemu.Instr.Ids

abbrev pub rd_is_rs1 : ℕ → Bool
rd_is_rs1 w = rd w == rs1 w

abbrev pub load_direct_rows : List Row
load_direct_rows =
    tab "??????? ????? ????? 000 ????? ????? ??" (found Ids.lb)
    ∷ tab "??????? ????? ????? 001 ????? ????? ??" (found Ids.lh)
    ∷ tab "??????? ????? ????? 010 ????? ????? ??" (found Ids.lw)
    ∷ tab "??????? ????? ????? 011 ????? ????? ??" (found Ids.ld)
    ∷ tab "??????? ????? ????? 100 ????? ????? ??" (found Ids.lbu)
    ∷ tab "??????? ????? ????? 101 ????? ????? ??" (found Ids.lhu)
    ∷ tab "??????? ????? ????? 110 ????? ????? ??" (found Ids.lwu)
    ∷ []

abbrev pub load_translated_rows : List Row
load_translated_rows =
    tab "??????? ????? ????? 000 ????? ????? ??" (found Ids.lb_mmu)
    ∷ tab "??????? ????? ????? 001 ????? ????? ??" (found Ids.lh_mmu)
    ∷ tab "??????? ????? ????? 010 ????? ????? ??" (found Ids.lw_mmu)
    ∷ tab "??????? ????? ????? 011 ????? ????? ??" (found Ids.ld_mmu)
    ∷ tab "??????? ????? ????? 100 ????? ????? ??" (found Ids.lbu_mmu)
    ∷ tab "??????? ????? ????? 101 ????? ????? ??" (found Ids.lhu_mmu)
    ∷ tab "??????? ????? ????? 110 ????? ????? ??" (found Ids.lwu_mmu)
    ∷ []

unfoldable pub load : Table
load = by_mmu_mode load_direct_rows load_translated_rows

abbrev pub store_direct_rows : List Row
store_direct_rows =
    tab "??????? ????? ????? 000 ????? ????? ??" (found Ids.sb)
    ∷ tab "??????? ????? ????? 001 ????? ????? ??" (found Ids.sh)
    ∷ tab "??????? ????? ????? 010 ????? ????? ??" (found Ids.sw)
    ∷ tab "??????? ????? ????? 011 ????? ????? ??" (found Ids.sd)
    ∷ []

abbrev pub store_translated_rows : List Row
store_translated_rows =
    tab "??????? ????? ????? 000 ????? ????? ??" (found Ids.sb_mmu)
    ∷ tab "??????? ????? ????? 001 ????? ????? ??" (found Ids.sh_mmu)
    ∷ tab "??????? ????? ????? 010 ????? ????? ??" (found Ids.sw_mmu)
    ∷ tab "??????? ????? ????? 011 ????? ????? ??" (found Ids.sd_mmu)
    ∷ []

unfoldable pub store : Table
store = by_mmu_mode store_direct_rows store_translated_rows

unfoldable pub c_addi_dispatch : Table
c_addi_dispatch d =
    if d.operands.src2 == 1
    then found Ids.p_inc d
    else (if d.operands.src2 == 2 ^ 64 - 1 then found Ids.p_dec d else found Ids.c_addi d)

abbrev pub c_addiw_dispatch : Table
c_addiw_dispatch = found Ids.c_addiw

abbrev pub addi_dispatch_rows : List Row
addi_dispatch_rows =
    tab "0000000 00000 00000 ??? ????? ????? ??" (found Ids.p_li_0)
    ∷ tab "0000000 00001 00000 ??? ????? ????? ??" (found Ids.p_li_1)
    ∷ tab "??????? ????? 00000 ??? ????? ????? ??" (found Ids.c_li)
    ∷ tab "0000000 00000 ????? ??? ????? ????? ??" (found Ids.c_mv)
    ∷ tab "??????? ????? ????? ??? ????? ????? ??" (found Ids.addi)
    ∷ []

unfoldable pub addi_dispatch : Table
addi_dispatch = select addi_dispatch_rows (found Ids.inv)

abbrev pub op_imm_rows : List Row
op_imm_rows =
    tab "??????? ????? ????? 000 ????? ????? ??" addi_dispatch
    ∷ tab "??????? ????? ????? 010 ????? ????? ??" (found Ids.slti)
    ∷ tab "??????? ????? ????? 011 ????? ????? ??" (found Ids.sltui)
    ∷ tab "??????? ????? ????? 100 ????? ????? ??" (found Ids.xori)
    ∷ tab "??????? ????? ????? 110 ????? ????? ??" (found Ids.ori)
    ∷ tab "??????? ????? ????? 111 ????? ????? ??" (found Ids.andi)
    ∷ tab "000000? ????? ????? 001 ????? ????? ??" (found Ids.slli)
    ∷ tab "000000? ????? ????? 101 ????? ????? ??" (found Ids.srli)
    ∷ tab "010000? ????? ????? 101 ????? ????? ??" (found Ids.srai)
    ∷ tab "001010? ????? ????? 001 ????? ????? ??" (found Ids.bseti)
    ∷ tab "0010100 00111 ????? 101 ????? ????? ??" (found Ids.orc_b)
    ∷ tab "010010? ????? ????? 001 ????? ????? ??" (found Ids.bclri)
    ∷ tab "010010? ????? ????? 101 ????? ????? ??" (found Ids.bexti)
    ∷ tab "0110000 00000 ????? 001 ????? ????? ??" (found Ids.clz)
    ∷ tab "0110000 00001 ????? 001 ????? ????? ??" (found Ids.ctz)
    ∷ tab "0110000 00010 ????? 001 ????? ????? ??" (found Ids.cpop)
    ∷ tab "0110000 00100 ????? 001 ????? ????? ??" (found Ids.sext_b)
    ∷ tab "0110000 00101 ????? 001 ????? ????? ??" (found Ids.sext_h)
    ∷ tab "011000? ????? ????? 101 ????? ????? ??" (found Ids.rori)
    ∷ tab "011010? ????? ????? 001 ????? ????? ??" (found Ids.binvi)
    ∷ tab "0110101 11000 ????? 101 ????? ????? ??" (found Ids.rev8)
    ∷ tab "0110100 00111 ????? 101 ????? ????? ??" (found Ids.revb)
    ∷ tab "0011000 00000 ????? 001 ????? ????? ??" (found Ids.aes64im)
    ∷ tab "0011000 1???? ????? 001 ????? ????? ??" (found Ids.aes64ks1i)
    ∷ tab "0001000 00000 ????? 001 ????? ????? ??" (found Ids.sha256sum0)
    ∷ tab "0001000 00001 ????? 001 ????? ????? ??" (found Ids.sha256sum1)
    ∷ tab "0001000 00010 ????? 001 ????? ????? ??" (found Ids.sha256sig0)
    ∷ tab "0001000 00011 ????? 001 ????? ????? ??" (found Ids.sha256sig1)
    ∷ tab "0001000 00100 ????? 001 ????? ????? ??" (found Ids.sha512sum0)
    ∷ tab "0001000 00101 ????? 001 ????? ????? ??" (found Ids.sha512sum1)
    ∷ tab "0001000 00110 ????? 001 ????? ????? ??" (found Ids.sha512sig0)
    ∷ tab "0001000 00111 ????? 001 ????? ????? ??" (found Ids.sha512sig1)
    ∷ tab "0001000 01000 ????? 001 ????? ????? ??" (found Ids.sm3p0)
    ∷ tab "0001000 01001 ????? 001 ????? ????? ??" (found Ids.sm3p1)
    ∷ []

-- The shorter forms, where the destination is also the first source.
abbrev pub op_imm_short_rows : List Row
op_imm_short_rows =
    tab "??????? ????? ????? 000 ????? ????? ??" c_addi_dispatch
    ∷ tab "??????? ????? ????? 111 ????? ????? ??" (found Ids.c_andi)
    ∷ tab "000000? ????? ????? 001 ????? ????? ??" (found Ids.c_slli)
    ∷ tab "010000? ????? ????? 101 ????? ????? ??" (found Ids.c_srai)
    ∷ tab "000000? ????? ????? 101 ????? ????? ??" (found Ids.c_srli)
    ∷ []

unfoldable pub op_imm : Table
op_imm d =
    let general = select op_imm_rows (found Ids.inv) d in
    if rd_is_rs1 d.instr then select op_imm_short_rows (λ _. general) d else general

abbrev pub op_imm32_rows : List Row
op_imm32_rows =
    tab "0000000 00000 ????? 000 ????? ????? ??" (found Ids.p_sext_w)
    ∷ tab "??????? ????? ????? 000 ????? ????? ??" (found Ids.addiw)
    ∷ tab "0000000 ????? ????? 001 ????? ????? ??" (found Ids.slliw)
    ∷ tab "0000000 ????? ????? 101 ????? ????? ??" (found Ids.srliw)
    ∷ tab "0100000 ????? ????? 101 ????? ????? ??" (found Ids.sraiw)
    ∷ tab "000010? ????? ????? 001 ????? ????? ??" (found Ids.slliuw)
    ∷ tab "0110000 00000 ????? 001 ????? ????? ??" (found Ids.clzw)
    ∷ tab "0110000 00001 ????? 001 ????? ????? ??" (found Ids.ctzw)
    ∷ tab "0110000 00010 ????? 001 ????? ????? ??" (found Ids.cpopw)
    ∷ tab "0110000 ????? ????? 101 ????? ????? ??" (found Ids.roriw)
    ∷ []

-- The shorter forms, where the destination is also the first source.
abbrev pub op_imm32_short_rows : List Row
op_imm32_short_rows = tab "??????? ????? ????? 000 ????? ????? ??" c_addiw_dispatch ∷ []

unfoldable pub op_imm32 : Table
op_imm32 d =
    let general = select op_imm32_rows (found Ids.inv) d in
    if rd_is_rs1 d.instr && (rd d.instr != 0)
    then select op_imm32_short_rows (λ _. general) d
    else general

abbrev pub op_rows : List Row
op_rows =
    tab "0000000 ????? ????? 000 ????? ????? ??" (found Ids.add)
    ∷ tab "0000000 ????? ????? 001 ????? ????? ??" (found Ids.sll)
    ∷ tab "0000000 ????? ????? 010 ????? ????? ??" (found Ids.slt)
    ∷ tab "0000000 ????? ????? 011 ????? ????? ??" (found Ids.sltu)
    ∷ tab "0000000 ????? ????? 100 ????? ????? ??" (found Ids.xor)
    ∷ tab "0000000 ????? ????? 101 ????? ????? ??" (found Ids.srl)
    ∷ tab "0000000 ????? ????? 110 ????? ????? ??" (found Ids.or)
    ∷ tab "0000000 ????? ????? 111 ????? ????? ??" (found Ids.and)
    ∷ tab "0100000 ????? ????? 000 ????? ????? ??" (found Ids.sub)
    ∷ tab "0100000 ????? ????? 101 ????? ????? ??" (found Ids.sra)
    ∷ tab "0000101 ????? ????? 001 ????? ????? ??" (found Ids.clmul)
    ∷ tab "0000101 ????? ????? 010 ????? ????? ??" (found Ids.clmulr)
    ∷ tab "0000101 ????? ????? 011 ????? ????? ??" (found Ids.clmulh)
    ∷ tab "0000101 ????? ????? 100 ????? ????? ??" (found Ids.min)
    ∷ tab "0000101 ????? ????? 101 ????? ????? ??" (found Ids.minu)
    ∷ tab "0000101 ????? ????? 110 ????? ????? ??" (found Ids.max)
    ∷ tab "0000101 ????? ????? 111 ????? ????? ??" (found Ids.maxu)
    ∷ tab "0010000 ????? ????? 010 ????? ????? ??" (found Ids.sh1add)
    ∷ tab "0010000 ????? ????? 100 ????? ????? ??" (found Ids.sh2add)
    ∷ tab "0010000 ????? ????? 110 ????? ????? ??" (found Ids.sh3add)
    ∷ tab "0010100 ????? ????? 001 ????? ????? ??" (found Ids.bset)
    ∷ tab "0100000 ????? ????? 100 ????? ????? ??" (found Ids.xnor)
    ∷ tab "0100000 ????? ????? 110 ????? ????? ??" (found Ids.orn)
    ∷ tab "0100000 ????? ????? 111 ????? ????? ??" (found Ids.andn)
    ∷ tab "0100100 ????? ????? 001 ????? ????? ??" (found Ids.bclr)
    ∷ tab "0100100 ????? ????? 101 ????? ????? ??" (found Ids.bext)
    ∷ tab "0110000 ????? ????? 001 ????? ????? ??" (found Ids.rol)
    ∷ tab "0110000 ????? ????? 101 ????? ????? ??" (found Ids.ror)
    ∷ tab "0110100 ????? ????? 001 ????? ????? ??" (found Ids.binv)
    ∷ tab "0000100 ????? ????? 100 ????? ????? ??" (found Ids.pack)
    ∷ tab "0000100 ????? ????? 111 ????? ????? ??" (found Ids.packh)
    ∷ tab "0010100 ????? ????? 010 ????? ????? ??" (found Ids.xpermn)
    ∷ tab "0010100 ????? ????? 100 ????? ????? ??" (found Ids.xpermb)
    ∷ tab "0011001 ????? ????? 000 ????? ????? ??" (found Ids.aes64es)
    ∷ tab "0011011 ????? ????? 000 ????? ????? ??" (found Ids.aes64esm)
    ∷ tab "0011101 ????? ????? 000 ????? ????? ??" (found Ids.aes64ds)
    ∷ tab "0011111 ????? ????? 000 ????? ????? ??" (found Ids.aes64dsm)
    ∷ tab "0111111 ????? ????? 000 ????? ????? ??" (found Ids.aes64ks2)
    ∷ tab "??11000 ????? ????? 000 ????? ????? ??" (found Ids.sm4ed)
    ∷ tab "??11010 ????? ????? 000 ????? ????? ??" (found Ids.sm4ks)
    ∷ []

-- The shorter forms, where the destination is also the first source.
abbrev pub op_short_rows : List Row
op_short_rows =
    tab "0000000 ????? ????? 000 ????? ????? ??" (found Ids.c_add)
    ∷ tab "0100000 ????? ????? 000 ????? ????? ??" (found Ids.c_sub)
    ∷ tab "0000000 ????? ????? 100 ????? ????? ??" (found Ids.c_xor)
    ∷ tab "0000000 ????? ????? 110 ????? ????? ??" (found Ids.c_or)
    ∷ tab "0000000 ????? ????? 111 ????? ????? ??" (found Ids.c_and)
    ∷ []

unfoldable pub op : Table
op d =
    let general = select op_rows (found Ids.inv) d in
    if rd_is_rs1 d.instr then select op_short_rows (λ _. general) d else general

abbrev pub op32_rows : List Row
op32_rows =
    tab "0000000 ????? ????? 000 ????? ????? ??" (found Ids.addw)
    ∷ tab "0100000 ????? ????? 000 ????? ????? ??" (found Ids.subw)
    ∷ tab "0000000 ????? ????? 001 ????? ????? ??" (found Ids.sllw)
    ∷ tab "0000000 ????? ????? 101 ????? ????? ??" (found Ids.srlw)
    ∷ tab "0100000 ????? ????? 101 ????? ????? ??" (found Ids.sraw)
    ∷ tab "0000100 ????? ????? 000 ????? ????? ??" (found Ids.adduw)
    ∷ tab "0010000 ????? ????? 010 ????? ????? ??" (found Ids.sh1adduw)
    ∷ tab "0010000 ????? ????? 100 ????? ????? ??" (found Ids.sh2adduw)
    ∷ tab "0010000 ????? ????? 110 ????? ????? ??" (found Ids.sh3adduw)
    ∷ tab "0110000 ????? ????? 001 ????? ????? ??" (found Ids.rolw)
    ∷ tab "0110000 ????? ????? 101 ????? ????? ??" (found Ids.rorw)
    ∷ tab "0000100 ????? ????? 100 ????? ????? ??" (found Ids.packw)
    ∷ []

-- The shorter forms, where the destination is also the first source.
abbrev pub op32_short_rows : List Row
op32_short_rows =
    tab "0000000 ????? ????? 000 ????? ????? ??" (found Ids.c_addw)
    ∷ tab "0100000 ????? ????? 000 ????? ????? ??" (found Ids.c_subw)
    ∷ []

unfoldable pub op32 : Table
op32 d =
    let general = select op32_rows (found Ids.inv) d in
    if rd_is_rs1 d.instr then select op32_short_rows (λ _. general) d else general
