-- ===== src/Instr/Ids.antt =====
-- The instructions (EXEC_ID of isa/riscv64/include/isa-all-instr.h).

pub data ExecId : Type 0 where
  inv rt_inv nemu_trap atomic system auipc lui dasicscall_j dasicscall_jr c_addi c_addiw : ExecId
  p_inc p_dec lb lh lw ld lbu lhu lwu lb_mmu lh_mmu lw_mmu ld_mmu lbu_mmu lhu_mmu lwu_mmu : ExecId
  sb sh sw sd sb_mmu sh_mmu sw_mmu sd_mmu p_li_0 p_li_1 c_li c_mv addi c_andi c_slli : ExecId
  c_srai c_srli slti sltui xori ori andi slli srli srai bseti orc_b bclri bexti clz ctz : ExecId
  cpop sext_b sext_h rori binvi rev8 revb aes64im aes64ks1i sha256sum0 sha256sum1 : ExecId
  sha256sig0 sha256sig1 sha512sum0 sha512sum1 sha512sig0 sha512sig1 sm3p0 sm3p1 p_sext_w : ExecId
  addiw slliw srliw sraiw slliuw clzw ctzw cpopw roriw c_add c_sub c_xor c_or c_and add : ExecId
  sll slt sltu xor srl or and sub sra clmul clmulr clmulh min minu max maxu sh1add sh2add : ExecId
  sh3add bset xnor orn andn bclr bext rol ror binv pack packh xpermn xpermb aes64es : ExecId
  aes64esm aes64ds aes64dsm aes64ks2 sm4ed sm4ks c_addw c_subw addw subw sllw srlw sraw : ExecId
  adduw sh1adduw sh2adduw sh3adduw rolw rorw packw c_beqz c_bnez p_bltz p_bgez p_bgtz : ExecId
  p_blez beq bne blt bge bltu bgeu c_j p_jal jal p_ret c_jr jalr fence fence_i mul mulh : ExecId
  mulhsu mulhu div divu rem remu mulw divw divuw remw remuw flw fld flw_mmu fld_mmu fsw : ExecId
  fsd fsw_mmu fsd_mmu fadds fsubs fmuls fdivs fsqrts fsgnjs fsgnjns fsgnjxs fmins fmaxs : ExecId
  fcvt_w_s fcvt_wu_s fmv_x_w feqs flts fles fclasss fcvt_s_w fcvt_s_wu fmv_w_x fcvt_l_s : ExecId
  fcvt_lu_s fcvt_s_l fcvt_s_lu fmadds fmsubs fnmsubs fnmadds faddd fsubd fmuld fdivd : ExecId
  fsqrtd fsgnjd fsgnjnd fsgnjxd fmind fmaxd fcvt_s_d fcvt_d_s feqd fltd fled fclassd : ExecId
  fcvt_w_d fcvt_wu_d fcvt_d_w fcvt_d_wu fcvt_l_d fcvt_lu_d fmv_x_d fcvt_d_l fcvt_d_lu : ExecId
  fmv_d_x fmaddd fmsubd fnmsubd fnmaddd c_jalr : ExecId
