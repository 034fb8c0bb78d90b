-- ===== src/Mmu/Force.antt =====
-- Page faults that the design under test asks for (force_raise_pf and force_raise_pf_record of
-- isa/riscv64/system/mmu.c), and isa_mmu_translate, which ends with them.
use nemu.Base.{ℕ, ◌+◌, Bool, not, ◌&&◌}
use nemu.Base.{◌==◌, ◌!=◌, if◌then◌else◌}
use nemu.Machine.{M, ok, pure, get, ◌>>=◌, ◌>>◌, write_csr, longjmp_exception}
use nemu.Machine.{MemType, ifetch, read, write, ifetch_read, write_read, update}
use nemu.Machine.Csr
use nemu.Trap.{set_tval, intr_deleg_s}
use nemu.Mmu.{ptw, mem_ret_ok, mem_ret_fail}

-- The value of a MEM_TYPE.
abbrev pub type_index : MemType → ℕ
type_index ifetch = 0
type_index read = 1
type_index write = 2
type_index ifetch_read = 3
type_index write_read = 4

-- The counters of repeated faults at one address; the fifth in a row is let through.
unfoldable pub force_raise_pf_record : ℕ → MemType → M Bool
force_raise_pf_record vaddr type s =
    let g = s.guide in
    let k = type_index type in
    let count = (if vaddr != g.last_addr k then 0 else g.force_count k) + 1 in
    ok (count == 5) (record s {
      guide = record g {
        last_addr = update g.last_addr k vaddr;
        force_count = update g.force_count k count;
      };
    })

-- The value that a forced fetch fault leaves for the handler: the one that the guide gives.
unfoldable pub force_fetch_tval : M (Unit {0})
force_fetch_tval s =
    if not (intr_deleg_s Csr.ex_ipf s)
    then write_csr Csr.mtval s.guide.mtval s
    else write_csr Csr.stval s.guide.stval s

unfoldable pub force_fault : ℕ → ℕ → MemType → M (Unit {0}) → M ℕ
force_fault ex vaddr type set = do
  enough ← force_raise_pf_record vaddr type
  (if enough then pure mem_ret_ok else (set >> longjmp_exception ex))

unfoldable pub force_raise_pf : ℕ → MemType → M ℕ
force_raise_pf vaddr ifetch = get >>= λ s.
    (if s.guide.guided_exec
        && s.guide.force_raise_exception
        && (s.guide.exception_num == Csr.ex_ipf)
      then force_fault Csr.ex_ipf vaddr ifetch force_fetch_tval
      else pure mem_ret_ok)
force_raise_pf vaddr read = get >>= λ s.
    (if s.guide.guided_exec
        && s.guide.force_raise_exception
        && (s.guide.exception_num == Csr.ex_lpf)
      then force_fault Csr.ex_lpf vaddr read (set_tval Csr.ex_lpf vaddr)
      else pure mem_ret_ok)
force_raise_pf vaddr write = get >>= λ s.
    (if s.guide.guided_exec
        && s.guide.force_raise_exception
        && (s.guide.exception_num == Csr.ex_spf)
      then force_fault Csr.ex_spf vaddr write (set_tval Csr.ex_spf vaddr)
      else pure mem_ret_ok)
force_raise_pf vaddr _ = pure mem_ret_ok

unfoldable pub isa_mmu_translate : ℕ → ℕ → MemType → M ℕ
isa_mmu_translate vaddr len type = ptw vaddr type >>= λ ptw_result.
    (if ptw_result != mem_ret_fail
      then (force_raise_pf vaddr type >>= λ r.
          pure (if r != mem_ret_ok then mem_ret_fail else ptw_result))
      else pure ptw_result)
