-- ===== src/Vaddr.antt =====
-- Virtual addresses (memory/vaddr.c), in a build without CONFIG_PERF_OPT.
pub mod Safety
pub mod Direct
pub mod Mapped
use nemu.Base.{ℕ, zero, suc, ◌+◌, ◌-◌, ◌*◌, ◌/◌, ◌%◌, ◌^◌, Bool, true, false, not, ◌&&◌, ◌||◌}
use nemu.Base.{◌==◌, ◌!=◌, if◌then◌else◌, bit_and, bit_or, u64, not64, shl64, Option, none, some}
use nemu.Machine.{Machine, M, ok, raised, pure, get, ◌>>=◌, ◌>>◌, and_then, modify}
use nemu.Machine.{MemType, ifetch, read, write}
use nemu.Trap.{mmu_direct, mmu_translate, mmu_dynamic}
use nemu.Dasics.{dasics_ldst_helper}
use nemu.Memory.Paddr.{paddr_read, paddr_write}
use nemu.Mmu.{isa_mmu_check, mem_ret_ok, mem_ret_fail, mem_ret_cross_page}
use nemu.Mmu.Force.{isa_mmu_translate}

abbrev pub page_mask : ℕ
page_mask = 2 ^ 12 - 1

-- `cpu.mode` as it is when the access is made.
unfoldable pub read_as_cpu : ℕ → ℕ → MemType → ℕ → M ℕ
read_as_cpu paddr len type vaddr s = paddr_read paddr len type s.mode vaddr s

unfoldable pub write_as_cpu : ℕ → ℕ → ℕ → ℕ → M (Unit {0})
write_as_cpu paddr len value vaddr s = paddr_write paddr len value s.mode vaddr s

-- The loop over the bytes of an access that crosses a page, from byte `i` on, with `left` to go;
-- `value` is what was read so far.
unfoldable pub read_cross_page_loop : ℕ → ℕ → ℕ → MemType → ℕ → M ℕ
read_cross_page_loop zero i vaddr type value = pure value
read_cross_page_loop (suc left) i vaddr type value =
    let addr = u64 (vaddr + i) in
    isa_mmu_translate addr 1 type >>= λ mmu_ret.
    (if bit_and mmu_ret page_mask != mem_ret_ok
      then pure 0
      else (read_as_cpu (bit_or (bit_and mmu_ret (not64 page_mask)) (bit_and addr page_mask)) 1 type
            vaddr
          >>= λ byte.
              read_cross_page_loop left (i + 1) vaddr type (bit_or value (shl64 byte (i * 8)))))

unfoldable pub vaddr_read_cross_page : ℕ → ℕ → MemType → M ℕ
vaddr_read_cross_page addr len type = read_cross_page_loop len 0 addr type 0

unfoldable pub write_cross_page_loop : ℕ → ℕ → ℕ → ℕ → M (Unit {0})
write_cross_page_loop zero i vaddr value = pure tt
write_cross_page_loop (suc left) i vaddr value =
    let addr = u64 (vaddr + i) in
    isa_mmu_translate addr 1 write >>= λ mmu_ret.
    (if bit_and mmu_ret page_mask != mem_ret_ok
      then pure tt
      else (write_as_cpu (bit_or (bit_and mmu_ret (not64 page_mask)) (bit_and addr page_mask)) 1
            (value % 256) vaddr
          >> write_cross_page_loop left (i + 1) vaddr (value / 256)))

unfoldable pub vaddr_write_cross_page : ℕ → ℕ → ℕ → M (Unit {0})
vaddr_write_cross_page addr len value = write_cross_page_loop len 0 addr value

unfoldable pub vaddr_mmu_read : ℕ → ℕ → MemType → M ℕ
vaddr_mmu_read vaddr len type = isa_mmu_translate vaddr len type >>= λ pg_base.
    (if bit_and pg_base page_mask == mem_ret_ok
      then read_as_cpu (bit_or pg_base (bit_and vaddr page_mask)) len type vaddr
      else if (len != 1) && (bit_and pg_base page_mask == mem_ret_cross_page)
      then vaddr_read_cross_page vaddr len type
      else pure 0)

unfoldable pub vaddr_mmu_write : ℕ → ℕ → ℕ → M (Unit {0})
vaddr_mmu_write vaddr len value = isa_mmu_translate vaddr len write >>= λ pg_base.
    (if bit_and pg_base page_mask == mem_ret_ok
      then write_as_cpu (bit_or pg_base (bit_and vaddr page_mask)) len value vaddr
      else if (len != 1) && (bit_and pg_base page_mask == mem_ret_cross_page)
      then vaddr_write_cross_page vaddr len value
      else pure tt)

-- `isa_mmu_check` where the mode of the access is not known.
unfoldable pub resolve_mmu_mode : ℕ → ℕ → MemType → ℕ → M ℕ
resolve_mmu_mode addr len type mmu_mode =
    if mmu_mode == mmu_dynamic then isa_mmu_check addr len type else pure mmu_mode

-- `pc` is that of the instruction, `none` where there is none.
unfoldable pub dasics_check : Option ℕ → ℕ → ℕ → MemType → M (Unit {0})
dasics_check none addr len type = pure tt
dasics_check (some pc) addr len type = dasics_ldst_helper pc addr len type

unfoldable pub vaddr_read_internal : Option ℕ → ℕ → ℕ → MemType → ℕ → M ℕ
vaddr_read_internal pc addr len type mmu_mode =
    dasics_check pc addr len type >> resolve_mmu_mode addr len type mmu_mode >>= λ mode.
    (if mode == mmu_direct then read_as_cpu addr len type addr else vaddr_mmu_read addr len type)

unfoldable pub vaddr_ifetch : ℕ → ℕ → M ℕ
vaddr_ifetch addr len = vaddr_read_internal none addr len ifetch mmu_dynamic

unfoldable pub vaddr_read : ℕ → ℕ → ℕ → ℕ → M ℕ
vaddr_read pc addr len mmu_mode = vaddr_read_internal (some pc) addr len read mmu_mode

unfoldable pub vaddr_read_safe : ℕ → ℕ → M ℕ
vaddr_read_safe addr len = vaddr_read_internal none addr len read mmu_dynamic

unfoldable pub vaddr_write : ℕ → ℕ → ℕ → ℕ → ℕ → M (Unit {0})
vaddr_write pc addr len value mmu_mode =
    dasics_check (some pc) addr len write >> resolve_mmu_mode addr len write mmu_mode >>= λ mode.
    (if mode == mmu_direct
      then write_as_cpu addr len value addr
      else vaddr_mmu_write addr len value)
