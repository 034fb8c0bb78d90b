-- ===== src/Priv.antt =====
-- Control and status registers and privileged instructions (isa/riscv64/system/priv.c), for the
-- build with RVN, RV_DASICS, RV_PMP_CSR, RV_SVINVAL, MISA_UNCHANGEABLE and XTVEC_VECTORED_MODE, and
-- without SHARE and RVV.
pub mod Read
pub mod Write
pub mod Instr
pub mod System
