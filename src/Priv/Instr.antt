-- ===== src/Priv/Instr.antt =====
-- The privileged instructions: csrrw, priv_instr and isa_hostcall of isa/riscv64/system/priv.c.
pub mod Return
pub mod Resume
pub mod Access
use nemu.Base.{
  ℕ, zero, suc, ◌+◌, ◌-◌, ◌*◌, ◌/◌, ◌%◌, ◌^◌, Bool, true, false, not, ◌&&◌, ◌||◌, ltb, leb,
}
use nemu.Base.{◌==◌, ◌!=◌, if◌then◌else◌, field, Option, none, some}
use nemu.Machine.{
  Machine, M, ok, raised, pure, ◌>>=◌, ◌>>◌, and_then, longjmp_exception, panic, get,
}
use nemu.Machine.{
  csr, write_csr, on_csr, set_mode, when, truth, mode_u, mode_s, mode_m, update, set_csr,
}
use nemu.Machine.Csr
use nemu.Machine.Csr.Mstatus
use nemu.Machine.Csr.Dsmcfg
use nemu.Trap.{update_mmu_state, raise_intr}
use nemu.Dasics.{dasics_in_trusted_zone, dfr_ef}
use nemu.Priv.Read.{Slot, csr_decode, csr_is_legal, csr_read}
use nemu.Priv.Write.{csr_write, mmu_tlb_flush, set_sys_state_flag}

-- The read half of csrrw: `none` where there is no destination register.
unfoldable pub read_dest : Bool → Slot → M (Option ℕ)
read_dest true slot = csr_read slot >>= λ v. pure (some v)
read_dest false slot = pure none

-- The write half; there is no source where the instruction only reads.
unfoldable pub write_src : Option ℕ → Slot → M (Unit {0})
write_src (some v) slot = csr_write slot v
write_src none slot = pure tt

abbrev pub is_some : Option ℕ → Bool
is_some (some v) = true
is_some none = false

-- `dest` says whether there is a destination; the result is what it receives.
unfoldable pub csrrw : Bool → Option ℕ → ℕ → ℕ → M (Option ℕ)
csrrw dest src csrid pc = do
  legal ← csr_is_legal csrid (is_some src) pc
  when (not legal) (longjmp_exception Csr.ex_ii)
  out ← read_dest dest (csr_decode csrid)
  write_src src (csr_decode csrid)
  pure out

abbrev pub illegal_if : Bool → M (Unit {0})
illegal_if b = when b (longjmp_exception Csr.ex_ii)

unfoldable pub uret : M ℕ
uret = do
  on_csr Csr.mstatus (λ w. Mstatus.set_uie (Mstatus.upie w) w)
  on_csr Csr.mstatus (Mstatus.set_upie 1)
  set_mode mode_u
  on_csr Csr.mstatus (Mstatus.set_mprv 0)
  _ ← update_mmu_state
  csr Csr.uepc

unfoldable pub sret : M ℕ
sret = do
  s ← get
  illegal_if
      (((s.mode == mode_s) && truth (Mstatus.tsr (s.csr_array Csr.mstatus))) || ltb s.mode mode_s)
  on_csr Csr.mstatus (λ w. Mstatus.set_sie (Mstatus.spie w) w)
  on_csr Csr.mstatus (Mstatus.set_spie 1)
  w ← csr Csr.mstatus
  set_mode (Mstatus.spp w)
  when (Mstatus.spp w != mode_m) (on_csr Csr.mstatus (Mstatus.set_mprv 0))
  on_csr Csr.mstatus (Mstatus.set_spp mode_u)
  _ ← update_mmu_state
  csr Csr.sepc

unfoldable pub mret : M ℕ
mret = do
  s ← get
  illegal_if (ltb s.mode mode_m)
  on_csr Csr.mstatus (λ w. Mstatus.set_mie (Mstatus.mpie w) w)
  on_csr Csr.mstatus (Mstatus.set_mpie 1)
  w ← csr Csr.mstatus
  set_mode (Mstatus.mpp w)
  when (Mstatus.mpp w != mode_m) (on_csr Csr.mstatus (Mstatus.set_mprv 0))
  on_csr Csr.mstatus (Mstatus.set_mpp mode_u)
  _ ← update_mmu_state
  csr Csr.mepc

-- Whether the Svinval instructions are switched on.
abbrev pub svinval : Machine → Bool
svinval s = truth (Csr.srnctl_svinval (s.csr_array Csr.srnctl))

-- Whether TVM traps an access to address translation.
abbrev pub tvm_traps : Machine → Bool
tvm_traps s = (s.mode == mode_s) && (Mstatus.tvm (s.csr_array Csr.mstatus) == 1)

-- sfence.vma and sinval.vma, told apart by bits 31 to 25.
unfoldable pub fence_vma : ℕ → ℕ → M ℕ
fence_vma op src s =
    if op / 2 ^ 5 == 0x09
    then (illegal_if (tvm_traps s) >> mmu_tlb_flush src >> pure 0) s
    else if op / 2 ^ 5 == 0x0b
    then (illegal_if (tvm_traps s || not (svinval s)) >> mmu_tlb_flush src >> pure 0) s
    else panic s

-- `op` is the immediate, `src` the value of rs1; the result is the next pc of a return, and 0
-- otherwise. fence.i has the immediate -1.
unfoldable pub priv_instr : ℕ → ℕ → M ℕ
priv_instr op src s =
    if op == 0x002
    then uret s
    else if op == 0x102
    then sret s
    else if op == 0x302
    then mret s
    else if (op == 0x180) || (op == 0x181)
    then (illegal_if (not (svinval s)) >> pure 0) s
    else if op == 0x105
    then (illegal_if (ltb s.mode mode_m && (Mstatus.tw (s.csr_array Csr.mstatus) == 1)) >> pure 0) s
    else if op == 2 ^ 32 - 1
    then (set_sys_state_flag 2 >> pure 0) s
    else fence_vma op src s

-- The trap of an environment call or a breakpoint: code outside the trusted zone may be denied it.
unfoldable pub hostcall_trap : ℕ → ℕ → ℕ → M ℕ
hostcall_trap imm src1 pc s =
    let trusted = dasics_in_trusted_zone pc s in
    let cfg = s.csr_array Csr.dsmcfg in
    if not trusted && (s.mode == mode_u) && not (truth (Dsmcfg.cuet cfg))
    then (write_csr Csr.dfreason dfr_ef >> raise_intr Csr.ex_ducf src1) s
    else if not trusted && (s.mode == mode_s) && not (truth (Dsmcfg.cset cfg))
    then (write_csr Csr.dfreason dfr_ef >> raise_intr Csr.ex_dscf src1) s
    else raise_intr imm src1 s

-- enum { HOSTCALL_EXIT, HOSTCALL_INV, HOSTCALL_PIO, HOSTCALL_CSR, HOSTCALL_TRAP, HOSTCALL_PRIV },
-- as far as isa_hostcall serves them.
pub data Hostcall : Type 0 where
  csr_call : Bool → Option ℕ → Hostcall
  trap_call : ℕ → Hostcall
  priv_call : ℕ → Hostcall
  other_call : Hostcall

unfoldable pub isa_hostcall : Hostcall → ℕ → ℕ → M (Option ℕ)
isa_hostcall (csr_call dest src) imm pc = csrrw dest src imm pc
isa_hostcall (trap_call src1) imm pc = hostcall_trap imm src1 pc >>= λ ret. pure (some ret)
isa_hostcall (priv_call src1) imm pc = priv_instr imm src1 >>= λ ret. pure (some ret)
isa_hostcall other_call imm pc = panic
