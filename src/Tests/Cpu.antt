-- ===== src/Tests/Cpu.antt =====
-- Tests of the execution of instructions from memory.
use nemu.Base.{ℕ, field, ◌≡◌, refl, arith, Bool, true, false, inl, some, if◌then◌else◌, ◌==◌}
use nemu.Machine.{Machine, ok}
use nemu.Machine.Csr
use nemu.Dasics.{
  cfi_none, cfi_jump, dfr_jf, dasics_in_trusted_zone, dasics_match_djumpbound,
  match_djumpbound_loop, jump_hit, has_cfg, jumpcfg_v, dasics_jumpcfg_from_index,
  dasics_jumpbound_low_from_index, dasics_jumpbound_high_from_index,
}
use nemu.Dasics.Fetch.{Permitted, trusted_jump, jump_into_free, return_to_main, return_from_free}
use nemu.Dasics.Jumps.{dasics_match_djumpbound_iff}
use nemu.Rvi.Ops.{interpret_relop, eq}
use nemu.Rvi.Ops
use nemu.Vaddr.{vaddr_ifetch, vaddr_read_internal, dasics_check, resolve_mmu_mode, read_as_cpu}
use nemu.Mmu.{isa_mmu_check, va_msbs_ok}
use nemu.Memory.Paddr.{paddr_read, in_pmem, in_pmem_of, pmem_read}
use nemu.Memory.Host.{host_read, load_bytes}
use nemu.Pmp.{isa_pmp_check_permission, pmp_loop, entry_verdict, pmpcfg_from_index}
use nemu.Trap.{effective_mode}
use nemu.Dasics.Ldst as Ldst
use nemu.Rvi.Memory.{after_write}
use nemu.Instr.Alu
use nemu.Cpu.{Prev, done, faulted, fetch, fetch_high, execute_one, utimer_tick}
use nemu.Cpu.Steps.{left_by, execute_one-Alu}
use nemu.Tests.{sandbox}
use nemu.Tests.Instr.{unmodelled, counting, fetched}
use nemu.Cpu.Loop.{handle_exception, handle}
use nemu.Cpu.Faults.{Taken, reported_at, kept, handle_exception-Taken, execute_one-Taken}
use nemu.Cpu.Transfers.{main-Transfer, jump_register, Finds}

abbrev nothing_before : Prev
nothing_before = record { prev_pc = 0; prev_type = cfi_none; prev_is_cfi = false }

-- A word in memory at the program counter.
abbrev holding : ℕ → Machine
holding w = record counting {
  pmem = λ a.
      if a == 0x80000000
      then field w 0 8
      else if a == 0x80000001
      then field w 8 8
      else if a == 0x80000002
      then field w 16 8
      else (if a == 0x80000003 then field w 24 8 else 0);
}

-- add x3, x1, x2 and beq x0, x0, 16
abbrev adding : ℕ
adding = 0x2081b3

abbrev branching : ℕ
branching = 0x863

adding_fetched : fetch 0x80000000 (holding adding) ≡ ok (adding, 0x80000004) (holding adding)
unfolding fetch fetch_high vaddr_ifetch vaddr_read_internal dasics_check resolve_mmu_mode
    isa_mmu_check va_msbs_ok read_as_cpu paddr_read isa_pmp_check_permission pmp_loop entry_verdict
    pmpcfg_from_index effective_mode in_pmem in_pmem_of pmem_read host_read load_bytes
adding_fetched = refl

branching_fetched :
    fetch 0x80000000 (holding branching) ≡ ok (branching, 0x80000004) (holding branching)
unfolding fetch fetch_high vaddr_ifetch vaddr_read_internal dasics_check resolve_mmu_mode
    isa_mmu_check va_msbs_ok read_as_cpu paddr_read isa_pmp_check_permission pmp_loop entry_verdict
    pmpcfg_from_index effective_mode in_pmem in_pmem_of pmem_read host_read load_bytes
branching_fetched = refl

execute_one-Alu_example :
    execute_one unmodelled nothing_before (holding adding)
    ≡ done (left_by 0x80000000 cfi_none) (
        utimer_tick (record (holding adding) {
          pc = 0x80000004;
          gpr = after_write 3 (Ops.c_add 0x80001230 9) counting.gpr;
        }))
execute_one-Alu_example =
    execute_one-Alu unmodelled nothing_before (holding adding) adding 0x80000004 refl adding_fetched
      refl Alu.add

-- ret
main-Transfer_example : Finds (fetched 0x8067) cfi_jump
main-Transfer_example = main-Transfer (fetched 0x8067) jump_register

-- Untrusted code, before and after a jump.
abbrev astray : Machine
astray = record sandbox { pc = 0x3000 }

abbrev jump_before : Prev
jump_before = record { prev_pc = 0x3800; prev_type = cfi_jump; prev_is_cfi = true }

differ : {b : Bool} → b ≡ true → b ≡ false → ⊥
differ e f = cc

outside :
    (dasics_match_djumpbound 0x3000 jumpcfg_v astray ≡ false)
    × (dasics_match_djumpbound 0x3800 jumpcfg_v astray ≡ false)
unfolding dasics_match_djumpbound match_djumpbound_loop jump_hit has_cfg dasics_jumpcfg_from_index
    dasics_jumpbound_low_from_index dasics_jumpbound_high_from_index
outside = (refl, refl)

untrusted :
    (dasics_in_trusted_zone 0x3000 astray ≡ false) × (dasics_in_trusted_zone 0x3800 astray ≡ false)
unfolding dasics_in_trusted_zone
untrusted = (refl, refl)

not_permitted : ¬ (Permitted 0x3000 0x3800 astray cfi_jump)
not_permitted (trusted_jump p) = differ p untrusted.1
not_permitted (jump_into_free f) =
    differ ((dasics_match_djumpbound_iff 0x3000 astray).1 f) outside.0
not_permitted (return_to_main u t e) = differ t untrusted.0
not_permitted (return_from_free f u n e) =
    differ ((dasics_match_djumpbound_iff 0x3800 astray).1 f) outside.1

handle_exception-Taken_example :
    (t : Machine) × (handle_exception Csr.ex_ii 0x3000 nothing_before astray
      ≡ ok (kept Csr.ex_ii nothing_before astray) t)
    × Taken Csr.ex_ii (reported_at Csr.ex_ii 0x3000 nothing_before astray) astray t
handle_exception-Taken_example =
    handle_exception-Taken Csr.ex_ii 0x3000 nothing_before astray (inl refl) (omega arith) cc

execute_one-Taken_example :
    (t : Machine) × (execute_one unmodelled jump_before astray
      ≡ faulted Csr.ex_ducf 0x3000 jump_before (Ldst.faulted 0x3000 dfr_jf astray))
    × (handle (some (Csr.ex_ducf, 0x3000)) jump_before (Ldst.faulted 0x3000 dfr_jf astray)
        ≡ ok (record jump_before { prev_type = cfi_none; prev_is_cfi = false }) t)
    × Taken Csr.ex_ducf 0x3800 (Ldst.faulted 0x3000 dfr_jf astray) t
execute_one-Taken_example =
    execute_one-Taken unmodelled jump_before astray refl refl not_permitted (inl refl) (omega arith)
      cc
