-- ===== src/Vaddr/Mapped.antt =====
-- A read of a mapped page: the walk, then memory.
use nemu.Base.{ℕ, zero, suc, ◌+◌, ◌%◌, ◌^◌, ◌≤◌, ◌≡◌, refl, ◌∙◌, arith, ◌!=◌}
use nemu.Base.{true, false, ◌||◌}
use nemu.Machine.{Machine, ok, MemType, is_any_read, is_ifetch}
use nemu.Machine.{ifetch, read, write, ifetch_read, write_read}
use nemu.Machine.Csr
use nemu.Pmp.{isa_pmp_check_permission}
use nemu.Memory.Host.{load_bytes, is_access_len}
use nemu.Memory.Paddr.{in_pmem}
use nemu.Memory.Paddr.Access.{paddr_read_memory}
use nemu.Mmu.{check_permission, ptw, leaf, pgbase, update_ad, vpni_shft, sext39, mem_ret_fail}
use nemu.Mmu.Force.{isa_mmu_translate, force_raise_pf}
use nemu.Mmu.Table.{Holds}
use nemu.Mmu.Maps.{page_within, ptw-Holds, Holds-level}
use nemu.Vaddr.{vaddr_mmu_read, read_as_cpu}
use nemu.Vaddr.Safety.{vaddr_mmu_read-one_page}

-- An address within a page of a level is in the small page that the walk returns.
place :
    (level base vaddr : ℕ)
    → level ≤ 2
    → base + page_within level vaddr + vaddr % 2 ^ 12 ≡ base + vaddr % 2 ^ vpni_shft level
place zero base vaddr h = omega arith
place (suc zero) base vaddr h = omega arith
place (suc (suc zero)) base vaddr h = omega arith
place (suc (suc (suc level))) base vaddr h = absurd (omega arith)

not_failed :
    (level base vaddr : ℕ)
    → level ≤ 2
    → base % 2 ^ vpni_shft level ≡ 0
    → (base + page_within level vaddr != mem_ret_fail) ≡ true
not_failed zero base vaddr h z = ground arith
not_failed (suc zero) base vaddr h z = ground arith
not_failed (suc (suc zero)) base vaddr h z = ground arith
not_failed (suc (suc (suc level))) base vaddr h z = absurd (omega arith)

not_forced :
    (vaddr : ℕ) (type : MemType) (s : Machine)
    → s.guide.guided_exec ≡ false
    → force_raise_pf vaddr type s ≡ ok 0 s
unfolding force_raise_pf
not_forced vaddr ifetch s g = rw g refl
not_forced vaddr read s g = rw g refl
not_forced vaddr write s g = rw g refl
not_forced vaddr ifetch_read s g = refl
not_forced vaddr write_read s g = refl

translated :
    (vaddr len : ℕ) (type : MemType) (page : ℕ) (s t : Machine)
    → ptw vaddr type s ≡ ok page t
    → (page != mem_ret_fail) ≡ true
    → t.guide.guided_exec ≡ false
    → isa_mmu_translate vaddr len type s ≡ ok page t
unfolding isa_mmu_translate
translated vaddr len type page s t w n g = rw (w, n, not_forced vaddr type t g) refl

-- A canonical address for which the page tables in memory hold a page that is aligned to its level and
-- whose permissions allow the access, with the page in memory that PMP lets be read and no page fault
-- asked for: a read through translation gives the bytes at the place of the address within the page,
-- for small pages and superpages.
pub vaddr_mmu_read-Holds :
    (vaddr len : ℕ) (type : MemType) (level base p_pte pte : ℕ) (s t : Machine)
    → is_access_len len ≡ true
    → (is_any_read type || is_ifetch type) ≡ true
    → sext39 vaddr ≡ vaddr
    → Holds vaddr type s 2
        (pgbase (Csr.satp_ppn (s.csr_array Csr.satp)))
        (leaf level base p_pte pte)
    → base % 2 ^ vpni_shft level ≡ 0
    → check_permission pte true vaddr type s ≡ ok tt s
    → update_ad p_pte pte vaddr type s ≡ ok tt t
    → t.guide.guided_exec ≡ false
    → isa_pmp_check_permission (base + vaddr % 2 ^ vpni_shft level) len type t.mode t ≡ true
    → in_pmem (base + vaddr % 2 ^ vpni_shft level) ≡ true
    → vaddr_mmu_read vaddr len type s
      ≡ ok (load_bytes len t.pmem (base + vaddr % 2 ^ vpni_shft level)) t
unfolding read_as_cpu
vaddr_mmu_read-Holds vaddr len type level base p_pte pte s t l k c h z p u g pmp mem =
    vaddr_mmu_read-one_page vaddr len type s
    ∙ rw (walked, place level base vaddr (Holds-level h))
        (paddr_read_memory (base + vaddr % 2 ^ vpni_shft level) len type t.mode vaddr t l k pmp mem)
  where
    walked : isa_mmu_translate vaddr len type s ≡ ok (base + page_within level vaddr) t
    walked =
        translated vaddr len type (base + page_within level vaddr) s t
          (ptw-Holds vaddr type level base p_pte pte s t c h z p u)
          (not_failed level base vaddr (Holds-level h) z) g
