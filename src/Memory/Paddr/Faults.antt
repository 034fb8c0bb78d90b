-- ===== src/Memory/Paddr/Faults.antt =====
-- Every way an access to a physical address can end.
use nemu.Base.{ℕ, ◌≡◌, refl, inl, inr, ◌⊎◌, true}
use nemu.Base.{false, ◌||◌, Bool-cases}
use nemu.Machine.{Machine, Outcome, ok, raised, MemType, write, is_ifetch, is_any_read, set_csr}
use nemu.Machine.Csr
use nemu.Trap.{set_tval, tval_reg}
use nemu.Pmp.{isa_pmp_check_permission}
use nemu.Memory.Host.{host_read, host_write, load_bytes, store_bytes, is_access_len}
use nemu.Memory.Mmio.{is_in_mmio, mmio_read, mmio_write}
use nemu.Memory.Paddr.{in_pmem, paddr_read, pmem_read, pmem_write, raise_access_fault}
use nemu.Memory.Paddr.{raise_read_access_fault, read_fault_cause}

-- The state after a fault: the address is in the trap value register of the level that will take
-- the trap, and the AMO flag is off.
abbrev pub faulted : ℕ → ℕ → Machine → Machine
faulted cause vaddr s = record (set_csr (tval_reg cause s) vaddr s) { amo = false }

-- An access is refused: by PMP, or because nothing is at the address.
abbrev pub Refused : ℕ → ℕ → MemType → ℕ → Machine → Type 0
Refused addr len type mode s =
    (isa_pmp_check_permission addr len type mode s ≡ false)
    ⊎ ((in_pmem addr ≡ false) × (is_in_mmio addr s ≡ false))

pub data ReadVerdict (addr len : ℕ) (type : MemType) (mode vaddr : ℕ) (s : Machine) (r : Outcome ℕ)
    : Type 0 where
  from_memory :
      isa_pmp_check_permission addr len type mode s ≡ true
      → in_pmem addr ≡ true
      → r ≡ ok (load_bytes len s.pmem addr) s
      → ReadVerdict addr len type mode vaddr s r
  from_device :
      isa_pmp_check_permission addr len type mode s ≡ true
      → in_pmem addr ≡ false
      → is_in_mmio addr s ≡ true
      → r ≡ mmio_read addr len s
      → ReadVerdict addr len type mode vaddr s r
  faults :
      Refused addr len type mode s
      → r ≡ raised (read_fault_cause type s.amo) (faulted (read_fault_cause type s.amo) vaddr s)
      → ReadVerdict addr len type mode vaddr s r

pub data WriteVerdict (addr len value mode vaddr : ℕ) (s : Machine) (r : Outcome (Unit {0}))
    : Type 0 where
  to_memory :
      isa_pmp_check_permission addr len write mode s ≡ true
      → in_pmem addr ≡ true
      → r ≡ ok tt (record s { pmem = store_bytes len s.pmem addr value })
      → WriteVerdict addr len value mode vaddr s r
  to_device :
      isa_pmp_check_permission addr len write mode s ≡ true
      → in_pmem addr ≡ false
      → is_in_mmio addr s ≡ true
      → r ≡ mmio_write addr len value s
      → WriteVerdict addr len value mode vaddr s r
  write_faults :
      Refused addr len write mode s
      → r ≡ raised Csr.ex_saf (faulted Csr.ex_saf vaddr s)
      → WriteVerdict addr len value mode vaddr s r

pub pmem_read_lem :
    (addr len : ℕ) (s : Machine)
    → is_access_len len ≡ true
    → pmem_read addr len s ≡ ok (load_bytes len s.pmem addr) s
unfolding pmem_read host_read
pmem_read_lem addr len s h = rw h refl

pub pmem_write_lem :
    (addr len value : ℕ) (s : Machine)
    → is_access_len len ≡ true
    → pmem_write addr len value s ≡ ok tt (record s { pmem = store_bytes len s.pmem addr value })
unfolding pmem_write host_write
pmem_write_lem addr len value s h = rw h refl

-- A read or fetch of 1, 2, 4 or 8 bytes gives the bytes of memory where PMP permits it and the
-- address is in memory, what the device gives where it is in a device region, and the access fault
-- of its kind otherwise.
pub paddr_read-ReadVerdict :
    (addr len : ℕ) (type : MemType) (mode vaddr : ℕ) (s : Machine)
    → is_access_len len ≡ true
    → (is_any_read type || is_ifetch type) ≡ true
    → ReadVerdict addr len type mode vaddr s (paddr_read addr len type mode vaddr s)
unfolding paddr_read raise_read_access_fault raise_access_fault set_tval
paddr_read-ReadVerdict addr len type mode vaddr s l t =
    elim (Bool-cases (isa_pmp_check_permission addr len type mode s)) [
      | inr miss ↦ rw (t, miss) (faults (inl miss) refl)
      | inl yes_pmp ↦ elim (Bool-cases (in_pmem addr)) [
        | inl inside ↦
            rw (t, yes_pmp, inside) (from_memory yes_pmp inside (pmem_read_lem addr len s l))
        | inr outside ↦ elim (Bool-cases (is_in_mmio addr s)) [
          | inl device ↦ rw (t, yes_pmp, outside, device) (from_device yes_pmp outside device refl)
          | inr nothing ↦ rw (t, yes_pmp, outside, nothing) (faults (inr (outside, nothing)) refl)
        ]
      ]
    ]
