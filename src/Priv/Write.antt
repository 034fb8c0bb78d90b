-- ===== src/Priv/Write.antt =====
-- csr_write (isa/riscv64/system/priv.c), with fp_set_dirty and fp_update_rm_cache of
-- isa/riscv64/instr/fp.c and hosttlb_flush of memory/host-tlb.c, which it calls.
pub mod Satp
pub mod Frame
pub mod PmpCfg
use nemu.Base.{
  ℕ, zero, suc, ◌+◌, ◌-◌, ◌*◌, ◌/◌, ◌%◌, ◌^◌, Bool, true, false, not, ◌&&◌, ◌||◌, ltb, leb,
}
use nemu.Base.{◌==◌, ◌!=◌, if◌then◌else◌, field, set_field, bit_and, bit_or, u64, not64, shl64}
use nemu.Base.{Option, none, some}
use nemu.Bits.Mask.{mask_bitset}
use nemu.Machine.{
  Machine, M, ok, raised, pure, ◌>>=◌, ◌>>◌, and_then, longjmp_exception, panic, get,
}
use nemu.Machine.{csr, write_csr, on_csr, set_mode, when, modify, truth, mode_u, mode_s, mode_m}
use nemu.Machine.{update, set_csr, HostTlbEntry, assert}
use nemu.Machine.Csr
use nemu.Machine.Csr.Mstatus
use nemu.Machine.Csr.Dsmcfg
use nemu.Trap.{update_mmu_state}
use nemu.Pmp.{
  pmpcfg_from_index, pmp_a, pmp_l, pmp_r, pmp_w, pmp_napot, pmp_tor, pmp_na4, rv_pmp_num,
}
use nemu.Priv.Read.{Slot, perf, at, sstatus_wmask, ustatus_mask, mstatus_wmask, satp_mask, s_mask}
use nemu.Priv.Read.{u_mask, update_mstatus_sd, is_pmpaddr}

-- set_sys_state_flag; SYS_STATE_UPDATE is 1 and SYS_STATE_FLUSH_TCACHE is 2.
unfoldable pub set_sys_state_flag : ℕ → M (Unit {0})
set_sys_state_flag flag s = ok tt (record s { sys_state_flag = bit_or s.sys_state_flag flag })

abbrev pub no_entry : HostTlbEntry
no_entry = record { offset = 2 ^ 64 - 1; gvpn = 2 ^ 64 - 1 }

unfoldable pub hosttlb_vpn : ℕ → ℕ
hosttlb_vpn vaddr = vaddr / 2 ^ 12

unfoldable pub hosttlb_idx : ℕ → ℕ
hosttlb_idx vaddr = hosttlb_vpn vaddr % 2 ^ 12

-- The flush of one page in one of the two tables.
unfoldable pub drop_page : ℕ → (ℕ → HostTlbEntry) → ℕ → HostTlbEntry
drop_page vaddr tlb =
    let idx = hosttlb_idx vaddr in
    let e = tlb idx in
    if e.gvpn == hosttlb_vpn vaddr then update tlb idx (record e { gvpn = 2 ^ 64 - 1 }) else tlb

unfoldable pub hosttlb_flush : ℕ → M (Unit {0})
hosttlb_flush vaddr s =
    if vaddr == 0
    then ok tt (record s { hostrtlb = λ _. no_entry; hostwtlb = λ _. no_entry })
    else ok tt
        (record s { hostrtlb = drop_page vaddr s.hostrtlb; hostwtlb = drop_page vaddr s.hostwtlb })

unfoldable pub mmu_tlb_flush : ℕ → M (Unit {0})
mmu_tlb_flush vaddr = hosttlb_flush vaddr >> when (vaddr == 0) (set_sys_state_flag 2)

unfoldable pub fp_set_dirty : M (Unit {0})
fp_set_dirty = on_csr Csr.mstatus (Mstatus.set_fs 3)

-- The rounding modes 0 to 4 are cached; any other fails an assertion.
unfoldable pub fp_update_rm_cache : ℕ → M (Unit {0})
fp_update_rm_cache rm s = if ltb rm 5 then ok tt (record s { rm_cache = rm }) else panic s

-- One byte of a value written to pmpcfg: no reserved bits, no W without R, and no NA4, since the
-- granularity is 4 KB.
unfoldable pub legal_pmpcfg : ℕ → ℕ
legal_pmpcfg byte =
    let cfg = bit_and byte 0x9f in
    let cfg = bit_and cfg (bit_or (not64 pmp_w) (if truth (bit_and cfg pmp_r) then pmp_w else 0)) in
    if bit_and cfg pmp_a == pmp_na4 then bit_or cfg pmp_napot else cfg

-- The loop over the bytes from `i` on, with `left` rounds to go.
unfoldable pub pmpcfg_loop : ℕ → ℕ → ℕ → ℕ → ℕ
pmpcfg_loop zero i src acc = acc
pmpcfg_loop (suc left) i src acc =
    pmpcfg_loop left (i + 1) src (bit_or acc (legal_pmpcfg (src / 2 ^ (i * 8) % 256) * 2 ^ (i * 8)))

unfoldable pub is_pmpaddr_writable : ℕ → Machine → Bool
is_pmpaddr_writable idx s =
    let locked = truth (bit_and (pmpcfg_from_index idx s) pmp_l) in
    let last = idx == rv_pmp_num - 1 in
    let next = pmpcfg_from_index (idx + 1) s in
    let next_locked = not last && truth (bit_and next pmp_l) in
    let next_tor = not last && (bit_and next pmp_a == pmp_tor) in
    not locked && not (next_locked && next_tor)

unfoldable pub write_pmpaddr : ℕ → ℕ → M (Unit {0})
write_pmpaddr a src = do
  s ← get
  when (is_pmpaddr_writable (a - 0x3b0) s) (write_csr a (src % 2 ^ 38))
  mmu_tlb_flush 0

abbrev pub is_pmpcfg : ℕ → Bool
is_pmpcfg a = leb 0x3a0 a && ltb a 0x3a4

abbrev pub is_mem_bound : ℕ → Bool
is_mem_bound a = leb 0x890 a && ltb a 0x8b0

abbrev pub is_jump_bound : ℕ → Bool
is_jump_bound a = leb 0x8c0 a && ltb a 0x8c8

-- `mask_bitset` on a register.
abbrev pub masked : ℕ → ℕ → ℕ → M (Unit {0})
masked a mask src = on_csr a (λ old. mask_bitset old mask src)

-- fcsr from frm and fflags.
unfoldable pub join_fcsr : M (Unit {0})
join_fcsr s =
    ok tt (set_csr Csr.fcsr (bit_or (shl64 (s.csr_array Csr.frm) 5) (s.csr_array Csr.fflags)) s)

unfoldable pub write_satp : ℕ → M (Unit {0})
write_satp src s =
    let mode = src / 2 ^ 60 in
    if (s.mode == mode_s) && (Mstatus.tvm (s.csr_array Csr.mstatus) == 1)
    then raised Csr.ex_ii s
    else if (mode == 8) || (mode == 0)
    then ok tt (set_csr Csr.satp (bit_and satp_mask src) s)
    else ok tt s

-- The first half of csr_write: what is stored, by register.
unfoldable pub store_csr : ℕ → ℕ → M (Unit {0})
store_csr a src s =
    if a == Csr.mstatus
    then masked Csr.mstatus mstatus_wmask src s
    else if a == Csr.sstatus
    then masked Csr.mstatus sstatus_wmask src s
    else if a == Csr.ustatus
    then masked Csr.mstatus ustatus_mask src s
    else if a == Csr.sie
    then masked Csr.mie (s_mask s) src s
    else if a == Csr.uie
    then masked Csr.mie (u_mask s) src s
    else if a == Csr.mip
    then masked Csr.mip 0xbbb src s
    else if a == Csr.sip
    then masked Csr.mip (if s.mode == mode_s then 3 else s_mask s) src s
    else if a == Csr.uip
    then masked Csr.mip (if s.mode == mode_u then 1 else u_mask s) src s
    else if (a == Csr.mtvec) || (a == Csr.stvec) || (a == Csr.utvec)
    then write_csr a (bit_and src (not64 2)) s
    else if a == Csr.medeleg
    then write_csr a (bit_and src 0x300b3ff) s
    else if a == Csr.mideleg
    then write_csr a (bit_and src 0x333) s
    else if a == Csr.sedeleg
    then write_csr a (bit_and src (s.csr_array Csr.medeleg)) s
    else if a == Csr.sideleg
    then write_csr a (bit_and src (s.csr_array Csr.mideleg)) s
    else if a == Csr.misa
    then ok tt s
    else if (a == Csr.mepc) || (a == Csr.sepc) || (a == Csr.uepc)
    then write_csr a (bit_and src (not64 1)) s
    else if a == Csr.fflags
    then (write_csr a (src % 32) >> join_fcsr) s
    else if a == Csr.frm
    then (write_csr a (src % 8) >> join_fcsr) s
    else if a == Csr.fcsr
    then (do
      write_csr a (src % 256)
      write_csr Csr.fflags (src % 32)
      write_csr Csr.frm (src / 32 % 8))
        s
    else if a == Csr.spkctl
    then write_csr a (src % 4) s
    else if is_pmpaddr a
    then write_pmpaddr a src s
    else if is_pmpcfg a
    then (write_csr a (pmpcfg_loop 8 0 src 0) >> mmu_tlb_flush 0) s
    else if (a == Csr.dsmcfg) || (a == Csr.dumcfg)
    then (let mask = if a == Csr.dsmcfg then Dsmcfg.dsmcfg_mask else Dsmcfg.dumcfg_mask in
        masked Csr.dsmcfg mask src s)
    else if is_mem_bound a || is_jump_bound a
    then write_csr a (bit_and src (not64 7)) s
    else if a == Csr.satp
    then write_satp src s
    else write_csr a src s

abbrev pub is_sys : ℕ → Bool
is_sys a =
    (a == Csr.mstatus)
    || (a == Csr.sstatus)
    || (a == Csr.satp)
    || (a == Csr.mie)
    || (a == Csr.sie)
    || (a == Csr.mip)
    || (a == Csr.sip)

-- The second half of csr_write: what follows a store to these registers.
unfoldable pub after_store : ℕ → M (Unit {0})
after_store a = do
  let is_fp = (a == Csr.fflags) || (a == Csr.frm) || (a == Csr.fcsr)
  fcsr ← csr Csr.fcsr
  when is_fp (fp_set_dirty >> fp_update_rm_cache (field fcsr 5 3))
  when ((a == Csr.sstatus) || (a == Csr.mstatus) || is_fp) update_mstatus_sd
  when ((a == Csr.mstatus) || (a == Csr.satp)) (update_mmu_state >>= λ _. pure tt)
  when (a == Csr.satp) (mmu_tlb_flush 0)
  when (is_sys a) (set_sys_state_flag 1)
  when ((a == Csr.ustatus) || (a == Csr.uie) || (a == Csr.uip)) (set_sys_state_flag 1)

unfoldable pub csr_write : Slot → ℕ → M (Unit {0})
csr_write perf src s = ok tt (record s { csr_perf = src })
csr_write (at a) src s = (store_csr a src >> after_store a) s
