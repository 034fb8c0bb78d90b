-- ===== src/Pmp.antt =====
-- Physical memory protection: the registers (isa/riscv64/system/priv.c) and the check
-- (isa_pmp_check_permission of isa/riscv64/system/mmu.c). CONFIG_RV_PMP_NUM is 16.
pub mod Rules
pub mod Sectors
pub mod Napot
pub mod Entries
pub mod Verdicts
use nemu.Base.{
  ℕ, zero, suc, ◌+◌, ◌-◌, ◌*◌, ◌/◌, ◌%◌, ◌^◌, Bool, true, false, not, ◌&&◌, ◌||◌, ltb, leb,
}
use nemu.Base.{◌==◌, ◌!=◌, if◌then◌else◌, field, bit_and, bit_or, bit_xor, u64, not64, shl64}
use nemu.Base.{Option, none, some}
use nemu.Machine.{Machine, truth, mode_m, MemType, is_ifetch, is_write, is_any_read}
use nemu.Machine.Csr
use nemu.Machine.Csr.Mstatus
use nemu.Trap.{effective_mode}

abbrev pub rv_pmp_num : ℕ
rv_pmp_num = 16

abbrev pub pmp_r : ℕ
pmp_r = 0x01

abbrev pub pmp_w : ℕ
pmp_w = 0x02

abbrev pub pmp_x : ℕ
pmp_x = 0x04

abbrev pub pmp_a : ℕ
pmp_a = 0x18

abbrev pub pmp_l : ℕ
pmp_l = 0x80

abbrev pub pmp_tor : ℕ
pmp_tor = 0x08

abbrev pub pmp_na4 : ℕ
pmp_na4 = 0x10

abbrev pub pmp_napot : ℕ
pmp_napot = 0x18

-- Byte `idx % 8` of pmpcfg0 or pmpcfg2; the index is below 16 in every call.
unfoldable pub pmpcfg_from_index : ℕ → Machine → ℕ
pmpcfg_from_index idx s =
    s.csr_array (if idx / 8 == 0 then Csr.pmpcfg0 else Csr.pmpcfg2) / 2 ^ (idx % 8 * 8) % 256

unfoldable pub pmpaddr_from_index : ℕ → Machine → ℕ
pmpaddr_from_index idx s = s.csr_array (Csr.pmpaddr0 + idx)

-- `-((word_t)1 << (PMP_PLATFORMGARIN - PMP_SHIFT))`.
abbrev pub pmp_tor_mask : ℕ
pmp_tor_mask = 2 ^ 64 - 2 ^ 10

-- The bits of an address that an entry compares, for NA4 and NAPOT.
unfoldable pub napot_mask : ℕ → Bool → ℕ
napot_mask pmpaddr is_na4 =
    let m = bit_or (bit_or (shl64 pmpaddr 1) (if is_na4 then 0 else 1)) (not64 pmp_tor_mask) in
    shl64 (not64 (bit_and m (not64 (u64 (m + 1))))) 2

-- What one entry compares an access with.
pub record Entry : Type 0 where
  pub is_tor : Bool
  pub base : ℕ
  pub tor : ℕ
  pub mask : ℕ

unfoldable pub sector_match : Entry → ℕ → Bool
sector_match e cur =
    if e.is_tor then leb e.base cur && ltb cur e.tor else bit_and (bit_xor cur e.tor) e.mask == 0

-- The loop over the 4-byte sectors of an access: any_match and all_match.
unfoldable pub sector_loop : ℕ → ℕ → Entry → Bool × Bool → Bool × Bool
sector_loop zero cur e (any, all) = (any, all)
sector_loop (suc left) cur e (any, all) =
    let hit = sector_match e (u64 cur) in sector_loop left (cur + 4) e (any || hit, all && hit)

-- The permission of the entry that matches.
unfoldable pub pmp_grants : ℕ → MemType → ℕ → Bool
pmp_grants cfg type mode =
    ((mode == mode_m) && not (truth (bit_and cfg pmp_l)))
    || (is_any_read type && truth (bit_and cfg pmp_r))
    || (is_write type && truth (bit_and cfg pmp_w))
    || (is_ifetch type && truth (bit_and cfg pmp_x))

unfoldable pub entry_at : ℕ → ℕ → Machine → Entry
entry_at i base s =
    let pmpaddr = pmpaddr_from_index i s in
    let a = bit_and (pmpcfg_from_index i s) pmp_a in
    record {
      is_tor = a == pmp_tor;
      base = base;
      tor = shl64 (bit_and pmpaddr pmp_tor_mask) 2;
      mask = napot_mask pmpaddr (a == pmp_na4);
    }

-- The verdict of entry `i`, `none` where it does not match.
unfoldable pub entry_verdict : ℕ → ℕ → ℕ → ℕ → MemType → ℕ → Machine → Option Bool
entry_verdict i base addr len type mode s =
    let cfg = pmpcfg_from_index i s in
    let (any, all) = sector_loop ((len + 3) / 4) addr (entry_at i base s) (false, true) in
    if truth (bit_and cfg pmp_a) && any
    then (if not all then some false else some (pmp_grants cfg type mode))
    else none

-- An entry that matches ends the loop.
abbrev pub or_later : Option Bool → Bool → Bool
or_later none rest = rest
or_later (some b) rest = b

-- The loop over the entries, from `i` on.
unfoldable pub pmp_loop : ℕ → ℕ → ℕ → ℕ → ℕ → MemType → ℕ → Machine → Bool
pmp_loop zero i base addr len type mode s = mode == mode_m
pmp_loop (suc left) i base addr len type mode s =
    let rest = pmp_loop left (i + 1) (entry_at i base s).tor addr len type mode s in
    or_later (entry_verdict i base addr len type mode s) rest

unfoldable pub isa_pmp_check_permission : ℕ → ℕ → MemType → ℕ → Machine → Bool
isa_pmp_check_permission addr len type out_mode s =
    let mode = if out_mode == mode_m then effective_mode (is_ifetch type) s else out_mode in
    pmp_loop rv_pmp_num 0 0 addr len type mode s
