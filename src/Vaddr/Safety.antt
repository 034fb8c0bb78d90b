-- ===== src/Vaddr/Safety.antt =====
-- Translated accesses: always one page, never the failure code.
use nemu.Base.{ℕ, ◌+◌, ◌*◌, ◌/◌, ◌%◌, ◌^◌, ◌≡◌, refl, arith, true}
use nemu.Base.{◌&&◌, ◌==◌, ◌!=◌, ◌∙◌, ap, bit_and, bit_or}
use nemu.Bits.Pack.{bit_or-eq-add, bit_and_mask, bit_or_comm}
use nemu.Machine.{Machine, M, MemType, ifetch, read, write, ifetch_read, write_read}
use nemu.Machine.{get, ◌>>=◌}
use nemu.Machine.Laws.{Yields, pure-Yields, if-Yields, bind-Yields, then-Yields, and_then_congr}
use nemu.Mmu.Force.{
  isa_mmu_translate, force_raise_pf, force_fault, force_raise_pf_record, force_fetch_tval,
}
use nemu.Machine.Csr
use nemu.Trap.{set_tval}
use nemu.Mmu.Walk.{IsPage, ptw-IsPage}
use nemu.Vaddr.{vaddr_mmu_read, vaddr_mmu_write, read_as_cpu, write_as_cpu, page_mask}

force_fault-Yields :
    (ex vaddr : ℕ) (type : MemType) (set : M (Unit {0}))
    → Yields (λ r. r ≡ 0) (force_fault ex vaddr type set)
unfolding force_fault
force_fault-Yields ex vaddr type set = then-Yields (force_raise_pf_record vaddr type) (λ enough.
    if-Yields enough (pure-Yields 0 refl) (then-Yields set (λ u. record { run = λ s. tt })))

force_raise_pf-Yields :
    (vaddr : ℕ) (type : MemType) → Yields (λ r. r ≡ 0) (force_raise_pf vaddr type)
unfolding force_raise_pf
force_raise_pf-Yields vaddr ifetch = then-Yields get (λ s.
    if-Yields
      (s.guide.guided_exec
        && s.guide.force_raise_exception
        && (s.guide.exception_num == Csr.ex_ipf))
      (force_fault-Yields Csr.ex_ipf vaddr ifetch force_fetch_tval) (pure-Yields 0 refl))
force_raise_pf-Yields vaddr read = then-Yields get (λ s.
    if-Yields
      (s.guide.guided_exec
        && s.guide.force_raise_exception
        && (s.guide.exception_num == Csr.ex_lpf))
      (force_fault-Yields Csr.ex_lpf vaddr read (set_tval Csr.ex_lpf vaddr)) (pure-Yields 0 refl))
force_raise_pf-Yields vaddr write = then-Yields get (λ s.
    if-Yields
      (s.guide.guided_exec
        && s.guide.force_raise_exception
        && (s.guide.exception_num == Csr.ex_spf))
      (force_fault-Yields Csr.ex_spf vaddr write (set_tval Csr.ex_spf vaddr)) (pure-Yields 0 refl))
force_raise_pf-Yields vaddr ifetch_read = pure-Yields 0 refl
force_raise_pf-Yields vaddr write_read = pure-Yields 0 refl

-- Translation returns the base of a page, or does not return.
pub isa_mmu_translate-IsPage :
    (vaddr len : ℕ) (type : MemType) → Yields IsPage (isa_mmu_translate vaddr len type)
unfolding isa_mmu_translate
isa_mmu_translate-IsPage vaddr len type = bind-Yields (ptw-IsPage vaddr type) (λ base h.
    if-Yields (base != 1)
      (bind-Yields (force_raise_pf-Yields vaddr type) (λ r z. pure-Yields _ (rw z h)))
      (pure-Yields base h))

-- The address that an access in one page goes to.
in_page :
    (base vaddr : ℕ) → IsPage base → bit_or base (bit_and vaddr page_mask) ≡ base + vaddr % 2 ^ 12
in_page base vaddr h =
    ap (λ (t : ℕ). bit_or base t) (bit_and_mask 12 vaddr)
    ∙ bit_or_comm base (vaddr % 2 ^ 12)
    ∙ ap (λ (t : ℕ). bit_or (vaddr % 2 ^ 12) t) whole
    ∙ bit_or-eq-add 12 (vaddr % 2 ^ 12) (base / 2 ^ 12) (omega arith)
    ∙ omega arith
  where
    whole : base ≡ base / 2 ^ 12 * 2 ^ 12
    whole = omega arith

offset_zero : (base : ℕ) → IsPage base → (bit_and base page_mask == 0) ≡ true
offset_zero base h = rw (bit_and_mask 12 base) (ground arith)

-- A read through translation is one page walk and one physical read; the paths for an access across
-- a page and for a failed walk are never taken.
pub vaddr_mmu_read-one_page :
    (vaddr len : ℕ) (type : MemType) (s : Machine)
    → vaddr_mmu_read vaddr len type s
      ≡ (isa_mmu_translate vaddr len type >>= λ base.
            read_as_cpu (base + vaddr % 2 ^ 12) len type vaddr)
          s
unfolding vaddr_mmu_read
vaddr_mmu_read-one_page vaddr len type s =
    and_then_congr IsPage (isa_mmu_translate vaddr len type s) _ _
      ((isa_mmu_translate-IsPage vaddr len type).run s)
      (λ base t h. rw (offset_zero base h, in_page base vaddr h) refl)

-- A write through translation is one page walk and one physical write; the paths for an access
-- across a page and for a failed walk are never taken.
pub vaddr_mmu_write-one_page :
    (vaddr len value : ℕ) (s : Machine)
    → vaddr_mmu_write vaddr len value s
      ≡ (isa_mmu_translate vaddr len write >>= λ base.
            write_as_cpu (base + vaddr % 2 ^ 12) len value vaddr)
          s
unfolding vaddr_mmu_write
vaddr_mmu_write-one_page vaddr len value s =
    and_then_congr IsPage (isa_mmu_translate vaddr len write s) _ _
      ((isa_mmu_translate-IsPage vaddr len write).run s)
      (λ base t h. rw (offset_zero base h, in_page base vaddr h) refl)
