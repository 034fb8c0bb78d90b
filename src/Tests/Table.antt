-- ===== src/Tests/Table.antt =====
-- A test of the page tables: two levels in memory, and a read of a superpage.
use nemu.Base.{◌≡◌, refl, ◌+◌, ◌*◌, ◌^◌, ◌==◌, if◌then◌else◌}
use nemu.Machine.{Machine, ok, read}
use nemu.Machine.Csr
use nemu.Trap.{effective_mode}
use nemu.Pmp.{
  isa_pmp_check_permission, pmp_loop, entry_verdict, pmpcfg_from_index, sector_loop, entry_at,
  pmpaddr_from_index, sector_match, pmp_grants,
}
use nemu.Memory.Host.{load_bytes}
use nemu.Memory.Paddr.{in_pmem, in_pmem_of}
use nemu.Mmu.{
  check_permission, page_ok, check_access, update_ad, vpni, walk_type, leaf, sext39, mpk_bit,
}
use nemu.Mmu.Table.{Holds, page, pointer}
use nemu.Vaddr.{vaddr_mmu_read}
use nemu.Vaddr.Mapped.{vaddr_mmu_read-Holds}
use nemu.Tests.{reset}

-- In supervisor mode, with the root table at 0x80010000, the next at 0x80011000, a superpage at
-- 0x80200000, and the lower 8 GB open to all.
abbrev paged : Machine
paged = record reset {
  mode = 1;
  csr_array = λ a.
      if a == Csr.satp
      then 8 * 2 ^ 60 + 0x80010
      else if a == Csr.pmpcfg0
      then 0x0f
      else if a == Csr.pmpaddr0
      then 0x80000000
      else 0;
  pmem = λ a.
      if a == 0x80010000
      then 0x01
      else if a == 0x80010001
      then 0x44
      else if a == 0x80010003
      then 0x20
      else if a == 0x80011000
      then 0xcf
      else if a == 0x80011002
      then 0x08
      else if a == 0x80011003
      then 0x20
      else if a == 0x80201008
      then 0x2a
      else 0;
}

tables : Holds 0x1008 read paged 2 0x80010000 (leaf 1 0x80200000 0x80011000 0x200800cf)
unfolding isa_pmp_check_permission pmp_loop entry_verdict pmpcfg_from_index effective_mode in_pmem
    in_pmem_of sector_loop load_bytes vpni walk_type entry_at pmpaddr_from_index sector_match
    pmp_grants
tables =
    pointer record { pmp = refl; memory = refl } refl refl
      (page record { pmp = refl; memory = refl } refl refl)

vaddr_mmu_read-Holds_example : vaddr_mmu_read 0x1008 1 read paged ≡ ok 0x2a paged
unfolding isa_pmp_check_permission pmp_loop entry_verdict pmpcfg_from_index effective_mode in_pmem
    in_pmem_of sector_loop load_bytes entry_at pmpaddr_from_index sector_match pmp_grants
    check_permission page_ok check_access update_ad sext39 mpk_bit
vaddr_mmu_read-Holds_example =
    vaddr_mmu_read-Holds 0x1008 1 read 1 0x80200000 0x80011000 0x200800cf paged paged refl refl refl
      tables refl refl refl refl refl refl
