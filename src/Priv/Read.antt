-- ===== src/Priv/Read.antt =====
-- Which registers may be accessed, and what reads return (isa/riscv64/system/priv.c).
use nemu.Base.{ℕ, ◌+◌, ◌-◌, ◌*◌, ◌/◌, ◌%◌, ◌^◌, Bool, true, false, not, ◌&&◌, ◌||◌, ltb, leb}
use nemu.Base.{◌==◌, if◌then◌else◌, field, bit_and, bit_or, not64}
use nemu.Machine.{Machine, M, ok, raised, ◌>>◌, panic}
use nemu.Machine.{mode_s}
use nemu.Machine.{set_csr}
use nemu.Machine.Csr
use nemu.Machine.Csr.Mstatus
use nemu.Machine.Csr.Dsmcfg
use nemu.Clint.{clint_uptime}
use nemu.Dasics.{dasics_in_trusted_zone}
use nemu.Pmp.{pmpcfg_from_index, pmp_tor_mask, pmp_a, pmp_napot}

-- What csr_decode points at: the shared dummy of the performance counters, or an element of
-- csr_array.
pub data Slot : Type 0 where
  perf : Slot
  at : ℕ → Slot

unfoldable pub csr_decode : ℕ → Slot
csr_decode addr =
    if (leb 0xb00 addr && leb addr 0xb1f) || (leb 0x320 addr && leb addr 0x33f)
    then perf
    else at addr

unfoldable pub csr_is_legal : ℕ → Bool → ℕ → M Bool
csr_is_legal addr need_write pc s =
    let lowest_access_priv_level = addr / 256 % 4 in
    if not (Csr.csr_exist addr)
    then ok false s
    else if not (leb lowest_access_priv_level s.mode && dasics_in_trusted_zone pc s)
    then panic s
    else if need_write && (addr / 1024 == 3)
    then ok false s
    else ok true s

abbrev pub sstatus_wmask : ℕ
sstatus_wmask = 0xc6133

abbrev pub sstatus_rmask : ℕ
sstatus_rmask = 0x80000003000de133

abbrev pub ustatus_mask : ℕ
ustatus_mask = 0x11

abbrev pub mstatus_wmask : ℕ
mstatus_wmask = 0x80000000007e79bb

abbrev pub satp_mask : ℕ
satp_mask = 2 ^ 63 + (2 ^ 16 - 1) * 2 ^ 44 + (2 ^ 28 - 1)

-- SIE_MASK, SIP_MASK, UIE_MASK and UIP_MASK.
abbrev pub s_mask : Machine → ℕ
s_mask s = bit_and 0x333 (s.csr_array Csr.mideleg)

abbrev pub u_mask : Machine → ℕ
u_mask s = bit_and 0x111 (s.csr_array Csr.sideleg)

unfoldable pub update_mstatus_sd : M (Unit {0})
update_mstatus_sd s =
    let w = s.csr_array Csr.mstatus in
    ok tt (set_csr Csr.mstatus (Mstatus.set_sd (if Mstatus.fs w == 3 then 1 else 0) w) s)

abbrev pub is_pmpaddr : ℕ → Bool
is_pmpaddr a = leb 0x3b0 a && ltb a 0x3c0

-- `*src` of a pmpaddr register, rounded to the granularity of 4 KB.
unfoldable pub read_pmpaddr : ℕ → Machine → ℕ
read_pmpaddr a s =
    if leb pmp_napot (bit_and (pmpcfg_from_index (a - 0x3b0) s) pmp_a)
    then bit_or (s.csr_array a) (not64 pmp_tor_mask / 2)
    else bit_and (s.csr_array a) pmp_tor_mask

-- The values that reads of these registers return, after the update of mstatus.sd.
unfoldable pub read_value : ℕ → M ℕ
read_value a s =
    if a == Csr.sstatus
    then ok (bit_and (s.csr_array Csr.mstatus) sstatus_rmask) s
    else if a == Csr.ustatus
    then ok (bit_and (s.csr_array Csr.mstatus) ustatus_mask) s
    else if a == Csr.sie
    then ok (bit_and (s.csr_array Csr.mie) (s_mask s)) s
    else if a == Csr.uie
    then ok (bit_and (s.csr_array Csr.mie) (u_mask s)) s
    else if (a == Csr.mtvec) || (a == Csr.stvec) || (a == Csr.utvec)
    then ok (bit_and (s.csr_array a) (not64 2)) s
    else if a == Csr.sip
    then ok (bit_and (s.csr_array Csr.mip) (s_mask s)) s
    else if a == Csr.uip
    then ok (bit_and (s.csr_array Csr.mip) (u_mask s)) s
    else if a == Csr.dsmcfg
    then ok (bit_and (s.csr_array Csr.dsmcfg) Dsmcfg.dsmcfg_mask) s
    else if a == Csr.dumcfg
    then ok (bit_and (s.csr_array Csr.dsmcfg) Dsmcfg.dumcfg_mask) s
    else if a == Csr.spkctl
    then ok (bit_and (s.csr_array Csr.spkctl) 3) s
    else if a == Csr.fcsr
    then ok (bit_and (s.csr_array Csr.fcsr) 0xff) s
    else if a == Csr.fflags
    then ok (field (s.csr_array Csr.fcsr) 0 5) s
    else if a == Csr.frm
    then ok (field (s.csr_array Csr.fcsr) 5 3) s
    else if a == Csr.mtime
    then clint_uptime s
    else if (a == Csr.satp) && (s.mode == mode_s) && (Mstatus.tvm (s.csr_array Csr.mstatus) == 1)
    then raised Csr.ex_ii s
    else ok (s.csr_array a) s

unfoldable pub csr_read : Slot → M ℕ
csr_read perf s = ok s.csr_perf s
csr_read (at a) s =
    if is_pmpaddr a
    then ok (read_pmpaddr a s) s
    else if (a == Csr.mstatus) || (a == Csr.sstatus)
    then (update_mstatus_sd >> read_value a) s
    else read_value a s
