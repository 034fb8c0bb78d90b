-- ===== src/Memory/Paddr/Access.antt =====
-- What a write to memory leaves to be read.
use nemu.Base.{ℕ, zero, suc, ◌+◌, ◌*◌, ◌%◌, ◌^◌, ◌≤◌, ◌≡◌, refl, ◌⊎◌, arith, Bool, true}
use nemu.Base.{◌||◌, if◌then◌else◌, ◌==◌, ◌∙◌, ap}
use nemu.Machine.{Machine, ok, MemType, write, is_ifetch, is_any_read, mode_m}
use nemu.Trap.{effective_mode}
use nemu.Pmp.{
  isa_pmp_check_permission, pmp_loop, entry_verdict, entry_at, pmpcfg_from_index,
  pmpaddr_from_index,
}
use nemu.Pmp.{or_later}
use nemu.Memory.Host.{
  load_bytes, store_bytes, is_access_len, load_bytes-store_bytes, load_bytes-agree,
}
use nemu.Memory.Host.{store_bytes-outside}
use nemu.Memory.Paddr.{in_pmem, paddr_read, paddr_write}
use nemu.Memory.Paddr.Faults.{pmem_read_lem, pmem_write_lem}

-- The read of a permitted address in memory.
pub paddr_read_memory :
    (addr len : ℕ) (type : MemType) (mode vaddr : ℕ) (s : Machine)
    → is_access_len len ≡ true
    → (is_any_read type || is_ifetch type) ≡ true
    → isa_pmp_check_permission addr len type mode s ≡ true
    → in_pmem addr ≡ true
    → paddr_read addr len type mode vaddr s ≡ ok (load_bytes len s.pmem addr) s
unfolding paddr_read
paddr_read_memory addr len type mode vaddr s l t p m = rw (t, p, m) (pmem_read_lem addr len s l)

pub paddr_write_memory :
    (addr len value mode vaddr : ℕ) (s : Machine)
    → is_access_len len ≡ true
    → isa_pmp_check_permission addr len write mode s ≡ true
    → in_pmem addr ≡ true
    → paddr_write addr len value mode vaddr s
      ≡ ok tt (record s { pmem = store_bytes len s.pmem addr value })
unfolding paddr_write
paddr_write_memory addr len value mode vaddr s l p m = rw (p, m) (pmem_write_lem addr len value s l)

-- The check of PMP does not depend on what is in memory.
pub pmp_loop_ignores_memory :
    (left i base addr len : ℕ) (type : MemType) (mode : ℕ) (s : Machine) (mem : ℕ → ℕ)
    → pmp_loop left i base addr len type mode (record s { pmem = mem })
      ≡ pmp_loop left i base addr len type mode s
unfolding pmp_loop entry_verdict entry_at pmpcfg_from_index pmpaddr_from_index
pmp_loop_ignores_memory zero i base addr len type mode s mem = refl
pmp_loop_ignores_memory (suc left) i base addr len type mode s mem =
    ap (λ (r : Bool). or_later (entry_verdict i base addr len type mode s) r)
      (pmp_loop_ignores_memory left (i + 1) (entry_at i base s).tor addr len type mode s mem)

pmp_ignores_memory :
    (addr len : ℕ) (type : MemType) (mode : ℕ) (s : Machine) (mem : ℕ → ℕ)
    → isa_pmp_check_permission addr len type mode (record s { pmem = mem })
      ≡ isa_pmp_check_permission addr len type mode s
unfolding isa_pmp_check_permission effective_mode
pmp_ignores_memory addr len type mode s mem =
    pmp_loop_ignores_memory 16 0 0 addr len type
      (if mode == mode_m then effective_mode (is_ifetch type) s else mode) s mem

-- A write to memory that returns, and what a read then gives.
pub record WriteThenRead (addr len value mode vaddr other n : ℕ) (type : MemType) (mode' vaddr' : ℕ)
    (s : Machine) (result : ℕ) : Type 0 where
  pub after : Machine
  pub writes : paddr_write addr len value mode vaddr s ≡ ok tt after
  pub reads : paddr_read other n type mode' vaddr' after ≡ ok result after

-- A write of 1, 2, 4 or 8 bytes to memory that PMP permits succeeds, and what was written is read
-- back, truncated to the width, by any read or fetch of the same width that PMP permits.
pub paddr_read-paddr_write :
    (addr len value mode vaddr : ℕ) (type : MemType) (mode' vaddr' : ℕ) (s : Machine)
    → is_access_len len ≡ true
    → isa_pmp_check_permission addr len write mode s ≡ true
    → in_pmem addr ≡ true
    → (is_any_read type || is_ifetch type) ≡ true
    → isa_pmp_check_permission addr len type mode' s ≡ true
    → WriteThenRead addr len value mode vaddr addr len type mode' vaddr' s (value % 2 ^ (8 * len))
paddr_read-paddr_write addr len value mode vaddr type mode' vaddr' s l p m t q = record {
  after = record s { pmem = mem };
  writes = paddr_write_memory addr len value mode vaddr s l p m;
  reads =
      paddr_read_memory addr len type mode' vaddr' (record s { pmem = mem }) l t
        (pmp_ignores_memory addr len type mode' s mem ∙ q) m
      ∙ ap (λ (v : ℕ). ok v (record s { pmem = mem }))
          (load_bytes-store_bytes len s.pmem addr value);
}
  where
    mem : ℕ → ℕ
    mem = store_bytes len s.pmem addr value

-- A read that shares no byte with the write gives what it gave before.
pub paddr_read_apart-paddr_write :
    (addr len value mode vaddr other n : ℕ) (type : MemType) (mode' vaddr' : ℕ) (s : Machine)
    → is_access_len len ≡ true
    → isa_pmp_check_permission addr len write mode s ≡ true
    → in_pmem addr ≡ true
    → is_access_len n ≡ true
    → (is_any_read type || is_ifetch type) ≡ true
    → isa_pmp_check_permission other n type mode' s ≡ true
    → in_pmem other ≡ true
    → (other + n ≤ addr) ⊎ (addr + len ≤ other)
    → WriteThenRead addr len value mode vaddr other n type mode' vaddr' s
        (load_bytes n s.pmem other)
paddr_read_apart-paddr_write addr len value mode vaddr other n type mode' vaddr' s l p m k t q i
      apart =
    record {
      after = record s { pmem = mem };
      writes = paddr_write_memory addr len value mode vaddr s l p m;
      reads =
          paddr_read_memory other n type mode' vaddr' (record s { pmem = mem }) k t
            (pmp_ignores_memory other n type mode' s mem ∙ q) i
          ∙ ap (λ (v : ℕ). ok v (record s { pmem = mem }))
              (load_bytes-agree n mem s.pmem other
                (λ b le lt. store_bytes-outside len s.pmem addr value b (omega arith)));
    }
  where
    mem : ℕ → ℕ
    mem = store_bytes len s.pmem addr value
