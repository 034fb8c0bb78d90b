-- ===== src/Mmu.antt =====
-- Address translation (isa/riscv64/system/mmu.c): the Sv39 page walk, its permission check with the
-- protection keys of DASICS, and the checks before it.
pub mod Pte
pub mod Force
pub mod Permission
pub mod Walk
pub mod Table
pub mod Maps
pub mod Check
use nemu.Base.{
  ℕ, zero, suc, ◌+◌, ◌-◌, ◌*◌, ◌/◌, ◌%◌, ◌^◌, Bool, true, false, not, ◌&&◌, ◌||◌, ltb, leb, max,
}
use nemu.Base.{
  ◌==◌, ◌!=◌, if◌then◌else◌, field, set_field, bit_and, bit_or, u64, not64, shl64, Option, none,
  some,
}
use nemu.Machine.{
  Machine, M, ok, raised, panicked, pure, panic, assert, get, ◌>>=◌, ◌>>◌, and_then, modify, when,
}
use nemu.Machine.{
  MemType, ifetch, read, write, ifetch_read, write_read, is_ifetch, is_read, is_write,
  longjmp_exception,
}
use nemu.Machine.{truth, mode_u, mode_s, mode_m, write_csr, set_csr, update, Guide}
use nemu.Machine.Csr
use nemu.Machine.Csr.Mstatus
use nemu.Trap.{set_tval, effective_mode, intr_deleg_s, mmu_direct, mmu_translate}
use nemu.Memory.Paddr.{paddr_read, paddr_write}
use nemu.Mmu.Pte

-- Reasons of a protection key fault.
abbrev pub mfr_lf : ℕ
mfr_lf = 5

abbrev pub mfr_sf : ℕ
mfr_sf = 6

abbrev pub ptw_level : ℕ
ptw_level = 3

abbrev pub pte_size : ℕ
pte_size = 8

abbrev pub pgbase : ℕ → ℕ
pgbase pn = shl64 pn 12

abbrev pub vpni_shft : ℕ → ℕ
vpni_shft i = 12 + 9 * i

unfoldable pub vpni : ℕ → ℕ → ℕ
vpni va i = va / 2 ^ vpni_shft i % 2 ^ 9

-- Whether the page may be used at all in this mode, the kind of access left aside.
unfoldable pub page_ok : ℕ → Bool → ℕ → Bool → Machine → Bool
page_ok pte good mode fetches s =
    let u = truth (Pte.u pte) in
    let sum = truth (Mstatus.sum (s.csr_array Csr.mstatus)) in
    good
    && truth (Pte.v pte)
    && not ((mode == mode_u) && not u)
    && not (u && ((mode == mode_s) && (not sum || fetches)))

-- The two bits of the protection key register for the key of the page: access is disabled
-- (`shift` 0), and write is disabled (`shift` 1).
unfoldable pub mpk_bit : ℕ → ℕ → ℕ → Machine → Bool
mpk_bit shift pte mode s =
    let ctl = s.csr_array Csr.spkctl in
    let enable =
      if mode == mode_u
      then truth (field ctl 0 1)
      else (if mode == mode_s then truth (field ctl 1 1) else false) in
    let pkr = s.csr_array (if mode == mode_u then Csr.upkru else Csr.spkrs) in
    enable && truth (pkr / 2 ^ (Pte.pkey pte * 2 + shift) % 2)

unfoldable pub page_fault : {A : Type 0} → ℕ → ℕ → M A
page_fault ex vaddr =
    set_tval ex vaddr >> modify (λ s. record s { amo = false }) >> longjmp_exception ex

unfoldable pub mpk_fault : {A : Type 0} → ℕ → ℕ → ℕ → M A
mpk_fault mode reason vaddr =
    let ex = if mode == mode_u then Csr.ex_ducf else Csr.ex_dscf in
    write_csr Csr.dfreason reason >> set_tval ex vaddr >> longjmp_exception ex

-- The second half of check_permission, by the kind of access.
unfoldable pub check_access : ℕ → Bool → ℕ → MemType → ℕ → M (Unit {0})
check_access pte good vaddr ifetch mode s =
    if not (good && truth (Pte.x pte))
    then (assert (not s.amo) >> set_tval Csr.ex_ipf vaddr >> longjmp_exception Csr.ex_ipf) s
    else ok tt s
check_access pte good vaddr read mode s =
    let mxr = truth (Mstatus.mxr (s.csr_array Csr.mstatus)) in
    let can_load = truth (Pte.r pte) || (mxr && truth (Pte.x pte)) in
    if not (good && can_load)
    then page_fault (if s.amo then Csr.ex_spf else Csr.ex_lpf) vaddr s
    else if mpk_bit 0 pte mode s
    then mpk_fault mode mfr_lf vaddr s
    else ok tt s
check_access pte good vaddr _ mode s =
    if not (good && truth (Pte.w pte))
    then page_fault Csr.ex_spf vaddr s
    else if mpk_bit 0 pte mode s || mpk_bit 1 pte mode s
    then mpk_fault mode mfr_sf vaddr s
    else ok tt s

-- It returns where the access is allowed, and leaves with a fault otherwise.
unfoldable pub check_permission : ℕ → Bool → ℕ → MemType → M (Unit {0})
check_permission pte good vaddr type s =
    let mode = effective_mode (is_ifetch type) s in
    (assert ((mode == mode_u) || (mode == mode_s))
        >> check_access pte (page_ok pte good mode (is_ifetch type) s) vaddr type mode)
      s

-- The kind of the read of an entry.
unfoldable pub walk_type : MemType → MemType
walk_type ifetch = ifetch_read
walk_type write = write_read
walk_type _ = read

-- How the loop of the walk ends: at a leaf of some level, with the base it holds and its own address,
-- or at an entry that is no good.
pub data WalkEnd : Type 0 where
  leaf : ℕ → ℕ → ℕ → ℕ → WalkEnd
  bad : ℕ → WalkEnd

-- What one entry means; `next` is the walk at the level below.
unfoldable pub walk_entry : ℕ → ℕ → ℕ → M WalkEnd → M WalkEnd
walk_entry level p_pte pte next =
    if (Pte.v pte == 0) || ((Pte.r pte == 0) && truth (Pte.w pte))
    then pure (bad pte)
    else if truth (Pte.r pte) || truth (Pte.x pte)
    then pure (leaf level (pgbase (Pte.ppn pte)) p_pte pte)
    else next

-- The loop, from `level` down.
unfoldable pub walk_loop : ℕ → ℕ → ℕ → MemType → M WalkEnd
walk_loop zero pg_base vaddr type =
    let p_pte = u64 (pg_base + vpni vaddr 0 * pte_size) in
    paddr_read p_pte pte_size (walk_type type) mode_s vaddr >>= λ pte.
    walk_entry 0 p_pte pte (pure (bad pte))
walk_loop (suc level) pg_base vaddr type =
    let p_pte = u64 (pg_base + vpni vaddr (suc level) * pte_size) in
    paddr_read p_pte pte_size (walk_type type) mode_s vaddr >>= λ pte.
    walk_entry (suc level) p_pte pte (walk_loop level (pgbase (Pte.ppn pte)) vaddr type)

-- The low 39 bits with their sign.
unfoldable pub sext39 : ℕ → ℕ
sext39 va = if field va 38 1 == 1 then va % 2 ^ 39 + (2 ^ 64 - 2 ^ 39) else va % 2 ^ 39

abbrev pub mem_ret_ok : ℕ
mem_ret_ok = 0

abbrev pub mem_ret_fail : ℕ
mem_ret_fail = 1

abbrev pub mem_ret_cross_page : ℕ
mem_ret_cross_page = 2

-- The label `bad`.
unfoldable pub ptw_bad : ℕ → ℕ → MemType → M ℕ
ptw_bad pte vaddr type = check_permission pte false vaddr type >> pure mem_ret_fail

-- The accessed and dirty bits, set by hardware.
unfoldable pub update_ad : ℕ → ℕ → ℕ → MemType → M (Unit {0})
update_ad p_pte pte vaddr type s =
    let dirty = if is_write type then 1 else 0 in
    if (Pte.a pte == 0) || ((Pte.d pte == 0) && is_write type)
    then paddr_write p_pte pte_size (Pte.set_d (max (Pte.d pte) dirty) (Pte.set_a 1 pte)) s.mode
        vaddr s
    else ok tt s

-- The page of a leaf: a superpage takes the lower page number from the address.
unfoldable pub leaf_base : ℕ → ℕ → ℕ → ℕ
leaf_base level pg_base vaddr =
    let pg_mask = 2 ^ vpni_shft level - 1 in
    if level == 0
    then pg_base
    else bit_or (bit_and pg_base (not64 pg_mask))
        (bit_and (bit_and vaddr pg_mask) (not64 (2 ^ 12 - 1)))

unfoldable pub ptw_end : ℕ → MemType → WalkEnd → M ℕ
ptw_end vaddr type (bad pte) = ptw_bad pte vaddr type
ptw_end vaddr type (leaf level pg_base p_pte pte) =
    check_permission pte true vaddr type
    >> (if not (level == 0) && (bit_and pg_base (2 ^ vpni_shft level - 1) != 0)
        then ptw_bad pte vaddr type
        else (update_ad p_pte pte vaddr type
            >> pure (bit_or (leaf_base level pg_base vaddr) mem_ret_ok)))

-- The page of an address. An address that is not canonical fails before any entry is read; the
-- entry that is then looked at does not matter, and is 0 here.
unfoldable pub ptw : ℕ → MemType → M ℕ
ptw vaddr type =
    if sext39 vaddr != vaddr
    then ptw_bad 0 vaddr type
    else (get >>= λ s.
        walk_loop (ptw_level - 1) (pgbase (Csr.satp_ppn (s.csr_array Csr.satp))) vaddr type
        >>= ptw_end vaddr type)

-- Whether the address is canonical, or translation is off.
unfoldable pub va_msbs_ok : ℕ → MemType → Machine → Bool
va_msbs_ok vaddr type s =
    let vm_enable =
      ltb (effective_mode (is_ifetch type) s) mode_m
      && (Csr.satp_mode (s.csr_array Csr.satp) == 8) in
    let va_msbs = vaddr / 2 ^ 38 in (va_msbs == 2 ^ 26 - 1) || (va_msbs == 0) || not vm_enable

unfoldable pub canonical_fault : ℕ → MemType → M ℕ
canonical_fault vaddr ifetch s =
    (write_csr Csr.stval vaddr >> set_tval Csr.ex_ipf vaddr >> longjmp_exception Csr.ex_ipf) s
canonical_fault vaddr read s =
    let ex = if s.amo then Csr.ex_spf else Csr.ex_lpf in
    (set_tval ex vaddr >> longjmp_exception ex) s
canonical_fault vaddr _ s = (set_tval Csr.ex_spf vaddr >> longjmp_exception Csr.ex_spf) s

-- The checks before translation; the result says whether to translate.
unfoldable pub isa_mmu_check : ℕ → ℕ → MemType → M ℕ
isa_mmu_check vaddr len type s =
    if not (va_msbs_ok vaddr type s)
    then canonical_fault vaddr type s
    else if is_ifetch type
    then ok (if s.ifetch_mmu_state != 0 then mmu_translate else mmu_direct) s
    else if bit_and vaddr (len - 1) != 0
    then (let ex = if s.amo || is_write type then Csr.ex_sam else Csr.ex_lam in
        (set_tval ex vaddr >> longjmp_exception ex) s)
    else ok (if s.data_mmu_state != 0 then mmu_translate else mmu_direct) s
