-- ===== src/Memory/Paddr.antt =====
-- Physical addresses: in_pmem (include/memory/paddr.h), paddr_read, paddr_write and the access
-- faults (memory/paddr.c).
pub mod Faults
pub mod Access
use nemu.Base.{
  ℕ, zero, suc, ◌+◌, ◌-◌, ◌*◌, ◌/◌, ◌%◌, ◌^◌, Bool, true, false, not, ◌&&◌, ◌||◌, ltb, leb,
}
use nemu.Base.{◌==◌, if◌then◌else◌, u64, not64, bit_and, Option, none, some}
use nemu.Machine.{Machine, M, ok, panicked, pure, panic, assert, get, ◌>>=◌, ◌>>◌, and_then, modify}
use nemu.Machine.{
  MemType, ifetch, ifetch_read, write_read, write, is_ifetch, is_any_read, longjmp_exception,
}
use nemu.Machine.Csr
use nemu.Trap.{set_tval}
use nemu.Pmp.{isa_pmp_check_permission}
use nemu.Memory.Host.{host_read, host_write}
use nemu.Memory.Mmio.{is_in_mmio, mmio_read, mmio_write, or_panic}

abbrev pub config_mbase : ℕ
config_mbase = 0x80000000

abbrev pub memory_size : ℕ
memory_size = 0x200000000

-- The test for any base and size: a mask where both are powers of two and the size is not larger.
unfoldable pub in_pmem_of : ℕ → ℕ → ℕ → Bool
in_pmem_of mbase msize addr =
    let mbase_mask = mbase - 1 in
    let msize_mask = msize - 1 in
    if (bit_and mbase mbase_mask == 0)
      && (bit_and msize msize_mask == 0)
      && leb msize_mask mbase_mask
    then bit_and addr (not64 msize_mask) == mbase
    else leb mbase addr && ltb addr (u64 (mbase + msize))

unfoldable pub in_pmem : ℕ → Bool
in_pmem addr = in_pmem_of config_mbase memory_size addr

-- The bytes of pmem are indexed by guest physical address.
unfoldable pub pmem_read : ℕ → ℕ → M ℕ
pmem_read addr len s = or_panic (host_read s.pmem addr len) s

unfoldable pub pmem_write : ℕ → ℕ → ℕ → M (Unit {0})
pmem_write addr len value = do
  s ← get
  mem ← or_panic (host_write s.pmem addr len value)
  modify (λ t. record t { pmem = mem })

unfoldable pub raise_access_fault : {A : Type 0} → ℕ → ℕ → M A
raise_access_fault cause vaddr =
    set_tval cause vaddr >> modify (λ t. record t { amo = false }) >> longjmp_exception cause

-- The cause of a fault of a read.
unfoldable pub read_fault_cause : MemType → Bool → ℕ
read_fault_cause ifetch amo = Csr.ex_iaf
read_fault_cause ifetch_read amo = Csr.ex_iaf
read_fault_cause write_read amo = Csr.ex_saf
read_fault_cause type amo = if amo then Csr.ex_saf else Csr.ex_laf

unfoldable pub raise_read_access_fault : {A : Type 0} → MemType → ℕ → M A
raise_read_access_fault type vaddr s = raise_access_fault (read_fault_cause type s.amo) vaddr s

unfoldable pub paddr_read : ℕ → ℕ → MemType → ℕ → ℕ → M ℕ
paddr_read addr len type mode vaddr s =
    if not (is_any_read type || is_ifetch type)
    then panicked
    else if not (isa_pmp_check_permission addr len type mode s)
    then raise_read_access_fault type vaddr s
    else if in_pmem addr
    then pmem_read addr len s
    else if is_in_mmio addr s
    then mmio_read addr len s
    else raise_read_access_fault type vaddr s

unfoldable pub paddr_write : ℕ → ℕ → ℕ → ℕ → ℕ → M (Unit {0})
paddr_write addr len value mode vaddr s =
    if not (isa_pmp_check_permission addr len write mode s)
    then raise_access_fault Csr.ex_saf vaddr s
    else if in_pmem addr
    then pmem_write addr len value s
    else if is_in_mmio addr s
    then mmio_write addr len value s
    else raise_access_fault Csr.ex_saf vaddr s
