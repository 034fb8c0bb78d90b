-- ===== src/Dasics.antt =====
-- The DASICS checks of isa/riscv64/system/priv.c: trusted zones, bounds of the untrusted code, and
-- the checks on memory accesses, control transfers and ecall.
pub mod Bounds
pub mod Jumps
pub mod Ldst
pub mod Fetch
use nemu.Base.{ℕ, zero, suc, ◌+◌, ◌*◌, ◌/◌, ◌%◌, ◌^◌, Bool, true, false, not, ◌&&◌, ◌||◌, ltb, leb}
use nemu.Base.{◌==◌, ◌!=◌, if◌then◌else◌, field, bit_and, bit_xor, u64}
use nemu.Machine.{
  Machine, M, ok, raised, ◌>>=◌, ◌>>◌, and_then, longjmp_exception, write_csr, truth,
}
use nemu.Machine.{mode_u, mode_s, mode_m, update, set_csr, MemType, read, write}
use nemu.Machine.Csr
use nemu.Machine.Csr.Dsmcfg
use nemu.Trap.{set_tval}

abbrev pub max_dasics_libbounds : ℕ
max_dasics_libbounds = 16

abbrev pub max_dasics_jumpbounds : ℕ
max_dasics_jumpbounds = 4

abbrev pub libcfg_v : ℕ
libcfg_v = 8

abbrev pub libcfg_r : ℕ
libcfg_r = 2

abbrev pub libcfg_w : ℕ
libcfg_w = 1

abbrev pub jumpcfg_v : ℕ
jumpcfg_v = 1

-- Fault reasons for dfreason.
abbrev pub dfr_ef : ℕ
dfr_ef = 1

abbrev pub dfr_lf : ℕ
dfr_lf = 2

abbrev pub dfr_sf : ℕ
dfr_sf = 3

abbrev pub dfr_jf : ℕ
dfr_jf = 4

pub data CfiType : Type 0 where
  cfi_none cfi_branch cfi_jump : CfiType

unfoldable pub dasics_in_trusted_zone : ℕ → Machine → Bool
dasics_in_trusted_zone pc s =
    let dsmcfg = s.csr_array Csr.dsmcfg in
    let is_smain_enable = truth (Dsmcfg.sena dsmcfg) in
    let is_umain_enable = truth (Dsmcfg.uena dsmcfg) in
    let in_smain_zone =
      leb (s.csr_array Csr.dsmbound0) pc
      && ltb pc (s.csr_array Csr.dsmbound1)
      && (s.mode == mode_s)
      && is_smain_enable in
    let in_umain_zone =
      leb (s.csr_array Csr.dumbound0) pc
      && ltb pc (s.csr_array Csr.dumbound1)
      && (s.mode == mode_u)
      && is_umain_enable in
    let in_s_trusted_zone = in_smain_zone || ((s.mode == mode_s) && not is_smain_enable) in
    let in_u_trusted_zone = in_umain_zone || ((s.mode == mode_u) && not is_umain_enable) in
    (s.mode == mode_m) || in_s_trusted_zone || in_u_trusted_zone

-- The index is below the number of bounds in every call.
unfoldable pub dasics_libcfg_from_index : ℕ → Machine → ℕ
dasics_libcfg_from_index i s = s.csr_array Csr.dlcfg0 / 2 ^ (i * 4) % 16

unfoldable pub dasics_libbound_from_index : ℕ → Machine → ℕ
dasics_libbound_from_index i s = s.csr_array (Csr.dlbound0 + i)

unfoldable pub dasics_jumpcfg_from_index : ℕ → Machine → ℕ
dasics_jumpcfg_from_index i s = s.csr_array Csr.djcfg / 2 ^ (i * 16) % 2 ^ 16

unfoldable pub dasics_jumpbound_low_from_index : ℕ → Machine → ℕ
dasics_jumpbound_low_from_index i s = s.csr_array (Csr.djbound0 + 2 * i)

unfoldable pub dasics_jumpbound_high_from_index : ℕ → Machine → ℕ
dasics_jumpbound_high_from_index i s = s.csr_array (Csr.djbound0 + 2 * i + 1)

-- `!((cfgval & cfg) ^ cfg)`.
unfoldable pub has_cfg : ℕ → ℕ → Bool
has_cfg cfgval cfg = bit_xor (bit_and cfgval cfg) cfg == 0

-- The test of one round of the loop in dasics_match_dlib.
unfoldable pub lib_hit : ℕ → ℕ → ℕ → Machine → Bool
lib_hit addr cfg i s =
    has_cfg (dasics_libcfg_from_index i s) cfg
    && leb (dasics_libbound_from_index (i * 2) s) addr
    && ltb addr (dasics_libbound_from_index (i * 2 + 1) s)

-- The loop from round `i` on, with `left` rounds to go; a hit breaks.
unfoldable pub match_dlib_loop : ℕ → ℕ → ℕ → ℕ → Machine → Bool
match_dlib_loop zero i addr cfg s = false
match_dlib_loop (suc left) i addr cfg s =
    let rest = match_dlib_loop left (i + 1) addr cfg s in
    if lib_hit addr cfg i s then true else rest

unfoldable pub dasics_match_dlib : ℕ → ℕ → Machine → Bool
dasics_match_dlib addr cfg s = match_dlib_loop max_dasics_libbounds 0 addr cfg s

unfoldable pub jump_hit : ℕ → ℕ → ℕ → Machine → Bool
jump_hit addr cfg i s =
    has_cfg (dasics_jumpcfg_from_index i s) cfg
    && leb (dasics_jumpbound_low_from_index i s) addr
    && ltb addr (dasics_jumpbound_high_from_index i s)

unfoldable pub match_djumpbound_loop : ℕ → ℕ → ℕ → ℕ → Machine → Bool
match_djumpbound_loop zero i addr cfg s = false
match_djumpbound_loop (suc left) i addr cfg s =
    let rest = match_djumpbound_loop left (i + 1) addr cfg s in
    if jump_hit addr cfg i s then true else rest

unfoldable pub dasics_match_djumpbound : ℕ → ℕ → Machine → Bool
dasics_match_djumpbound addr cfg s = match_djumpbound_loop max_dasics_jumpbounds 0 addr cfg s

-- Leaves with a DASICS fault of the current mode: the address goes to the trap value register and
-- the reason to dfreason.
unfoldable pub dasics_fault : ℕ → ℕ → M (Unit {0})
dasics_fault addr reason s =
    let ex = if s.mode == mode_u then Csr.ex_ducf else Csr.ex_dscf in
    (do set_tval ex addr; write_csr Csr.dfreason reason; longjmp_exception ex) s

-- The loop over the bytes of an access: `left` bytes from `vaddr + i` on.
unfoldable pub ldst_loop : ℕ → ℕ → ℕ → ℕ → ℕ → Bool → M (Unit {0})
ldst_loop zero i vaddr cfg reason close s = ok tt s
ldst_loop (suc left) i vaddr cfg reason close s =
    let rest = ldst_loop left (i + 1) vaddr cfg reason close s in
    if not close && not (dasics_match_dlib (u64 (vaddr + i)) cfg s)
    then dasics_fault (u64 (vaddr + i)) reason s
    else rest

unfoldable pub dasics_ldst_helper : ℕ → ℕ → ℕ → MemType → M (Unit {0})
dasics_ldst_helper pc vaddr len write s =
    let dsmcfg = s.csr_array Csr.dsmcfg in
    let close_st_ex = truth (if s.mode == mode_u then Dsmcfg.cust dsmcfg else Dsmcfg.csst dsmcfg) in
    if dasics_in_trusted_zone pc s
    then ok tt s
    else ldst_loop len 0 vaddr (libcfg_v + libcfg_w) dfr_sf close_st_ex s
dasics_ldst_helper pc vaddr len read s =
    let dsmcfg = s.csr_array Csr.dsmcfg in
    let close_ld_ex = truth (if s.mode == mode_u then Dsmcfg.cult dsmcfg else Dsmcfg.cslt dsmcfg) in
    if dasics_in_trusted_zone pc s
    then ok tt s
    else ldst_loop len 0 vaddr (libcfg_v + libcfg_r) dfr_lf close_ld_ex s
dasics_ldst_helper pc vaddr len _ s = ok tt s

unfoldable pub dasics_fetch_helper : ℕ → ℕ → CfiType → M (Unit {0})
dasics_fetch_helper pc prev_pc cfi_type s =
    let src_trusted = dasics_in_trusted_zone prev_pc s in
    let dst_trusted = dasics_in_trusted_zone pc s in
    let src_freezone = dasics_match_djumpbound prev_pc jumpcfg_v s in
    let dst_freezone = dasics_match_djumpbound pc jumpcfg_v s in
    let dsmcfg = s.csr_array Csr.dsmcfg in
    let close_fetch_ex =
      truth (if s.mode == mode_u then Dsmcfg.cuft dsmcfg else Dsmcfg.csft dsmcfg) in
    let allow_lib_to_main =
      not src_trusted
      && dst_trusted
      && ((pc == s.csr_array Csr.dretpc) || (pc == s.csr_array Csr.dmaincall)) in
    let allow_freezone_to_lib =
      src_freezone && not dst_trusted && not dst_freezone && (pc == s.csr_array Csr.dretpcfz) in
    let allow_br = src_trusted || dst_freezone in
    let allow_jump = src_trusted || allow_lib_to_main || dst_freezone || allow_freezone_to_lib in
    let allow_cfi : Bool = elim cfi_type [
      | cfi_branch ↦ allow_br
      | cfi_jump ↦ allow_jump
      | cfi_none ↦ false
    ] in
    if not allow_cfi && not close_fetch_ex then dasics_fault pc dfr_jf s else ok tt s

unfoldable pub dasics_check_trusted : ℕ → M (Unit {0})
dasics_check_trusted pc s =
    if not (dasics_in_trusted_zone pc s) then raised Csr.ex_ii s else ok tt s
