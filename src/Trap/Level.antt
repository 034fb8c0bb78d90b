-- ===== src/Trap/Level.antt =====
-- The three levels that take traps, each by its own registers and its own fields of mstatus.
use nemu.Base.{ℕ, ◌≡◌, arith}
use nemu.Machine.{mode_m, mode_s, mode_u}
use nemu.Machine.Csr
use nemu.Machine.Csr.Mstatus

-- The registers and fields through which one level takes its traps.
pub record Level : Type 0 where
  pub mode : ℕ
  pub cause : ℕ
  pub epc : ℕ
  pub tval : ℕ
  pub tvec : ℕ
  pub ie : ℕ → ℕ
  pub pie : ℕ → ℕ
  pub pp : ℕ → ℕ

abbrev pub level_u : Level
level_u = record {
  mode = mode_u;
  cause = Csr.ucause;
  epc = Csr.uepc;
  tval = Csr.utval;
  tvec = Csr.utvec;
  ie = Mstatus.uie;
  pie = Mstatus.upie;
  pp = λ w. 0;
}

abbrev pub level_s : Level
level_s = record {
  mode = mode_s;
  cause = Csr.scause;
  epc = Csr.sepc;
  tval = Csr.stval;
  tvec = Csr.stvec;
  ie = Mstatus.sie;
  pie = Mstatus.spie;
  pp = Mstatus.spp;
}

abbrev pub level_m : Level
level_m = record {
  mode = mode_m;
  cause = Csr.mcause;
  epc = Csr.mepc;
  tval = Csr.mtval;
  tvec = Csr.mtvec;
  ie = Mstatus.mie;
  pie = Mstatus.mpie;
  pp = Mstatus.mpp;
}

pub tsr-set_uie : (v w : ℕ) → Mstatus.tsr (Mstatus.set_uie v w) ≡ Mstatus.tsr w
tsr-set_uie v w = omega arith

pub tsr-set_upie : (v w : ℕ) → Mstatus.tsr (Mstatus.set_upie v w) ≡ Mstatus.tsr w
tsr-set_upie v w = omega arith

pub tsr-set_sie : (v w : ℕ) → Mstatus.tsr (Mstatus.set_sie v w) ≡ Mstatus.tsr w
tsr-set_sie v w = omega arith

pub tsr-set_spie : (v w : ℕ) → Mstatus.tsr (Mstatus.set_spie v w) ≡ Mstatus.tsr w
tsr-set_spie v w = omega arith

pub tsr-set_spp : (v w : ℕ) → Mstatus.tsr (Mstatus.set_spp v w) ≡ Mstatus.tsr w
tsr-set_spp v w = omega arith

pub tsr-set_mie : (v w : ℕ) → Mstatus.tsr (Mstatus.set_mie v w) ≡ Mstatus.tsr w
tsr-set_mie v w = omega arith

pub tsr-set_mpie : (v w : ℕ) → Mstatus.tsr (Mstatus.set_mpie v w) ≡ Mstatus.tsr w
tsr-set_mpie v w = omega arith

pub tsr-set_mpp : (v w : ℕ) → Mstatus.tsr (Mstatus.set_mpp v w) ≡ Mstatus.tsr w
tsr-set_mpp v w = omega arith
