-- ===== src/Tests/Rvi.antt =====
-- Tests of the integer and the atomic instructions.
use nemu.Base.{◌-◌, ◌%◌, ◌^◌, ◌*◌, ◌≡◌, refl, arith, ◌==◌, if◌then◌else◌, false, inr}
use nemu.Machine.{Machine, ok, read, write, ◌>>=◌}
use nemu.Trap.{mmu_dynamic, effective_mode}
use nemu.Dasics.{dasics_in_trusted_zone, dasics_ldst_helper, dasics_fetch_helper, cfi_jump}
use nemu.Pmp.{isa_pmp_check_permission, pmp_loop, entry_verdict, pmpcfg_from_index, sector_loop}
use nemu.Memory.Host.{load_bytes, store_bytes}
use nemu.Memory.Paddr.{in_pmem, in_pmem_of}
use nemu.Mmu.{isa_mmu_check, va_msbs_ok}
use nemu.Vaddr.{resolve_mmu_mode}
use nemu.Vaddr.Direct.{Permitted}
use nemu.Rvi.{rtl_lms, rtl_sm, sext_len, dasicscall_jr}
use nemu.Rvi.Ops.{c_add}
use nemu.Rvi.Memory.{after_write, rtl_lms-rtl_sm}
use nemu.Rvi.Calls.{dasics_fetch_helper-dasicscall_jr}
use nemu.Rvi.Decode.{decode_b}
use nemu.Rvi.Decode.Encode.{encode_b, decode_b-encode_b}
use nemu.Rva.{amo_value, amo_slow_path, lr, sc}
use nemu.Rva.Atomic.{found, amo_slow_path-Swaps, lr-sc}
use nemu.Tests.{reset, sandbox}

-- In machine mode, with an address in register 1 and a value in register 2.
abbrev running : Machine
running = record reset {
  gpr = λ i. if i == 1 then 0x80001000 else if i == 2 then 0x1fffffff8 else 0;
}

loads : Permitted 0x80000000 0x80001000 4 read mmu_dynamic running
unfolding isa_pmp_check_permission pmp_loop entry_verdict pmpcfg_from_index effective_mode in_pmem
    in_pmem_of sector_loop dasics_ldst_helper dasics_in_trusted_zone resolve_mmu_mode isa_mmu_check
    va_msbs_ok
loads = record { width = refl; dasics = refl; direct = refl; pmp = refl; memory = refl }

stores : Permitted 0x80000000 0x80001000 4 write mmu_dynamic running
unfolding isa_pmp_check_permission pmp_loop entry_verdict pmpcfg_from_index effective_mode in_pmem
    in_pmem_of sector_loop dasics_ldst_helper dasics_in_trusted_zone resolve_mmu_mode isa_mmu_check
    va_msbs_ok
stores = record { width = refl; dasics = refl; direct = refl; pmp = refl; memory = refl }

-- A store of register 2 at the address in register 1, and a load into register 3.
rtl_lms-rtl_sm_example :
    (rtl_sm 0x80000000 2 1 0 4 mmu_dynamic >>= λ _. rtl_lms 0x80000000 3 1 0 4 mmu_dynamic) running
    ≡ ok tt (record running {
      pmem = store_bytes 4 running.pmem 0x80001000 0x1fffffff8;
      gpr = after_write 3 (sext_len 4 (0x1fffffff8 % 2 ^ (8 * 4))) running.gpr;
    })
rtl_lms-rtl_sm_example =
    rtl_lms-rtl_sm 0x80000000 0x80000000 2 3 1 0 4 mmu_dynamic mmu_dynamic running stores loads

-- amoadd.w.
amo_slow_path-Swaps_example :
    amo_slow_path 0x80000000 0 2 3 1 2 running
    ≡ ok tt (record running {
      pmem = store_bytes 4 running.pmem 0x80001000 0x1fffffff8;
      gpr = after_write 3 (found 4 1 running) running.gpr;
      amo = false;
    })
unfolding amo_value sext_len load_bytes c_add
amo_slow_path-Swaps_example =
    amo_slow_path-Swaps 0x80000000 0 2 3 1 2 0x1fffffff8 running loads stores refl

lr-sc_example :
    (lr 0x80000000 4 3 1 >>= λ _. sc 0x80000000 4 4 1 2) running
    ≡ ok tt (record running {
      pmem =
          store_bytes 4 running.pmem 0x80001000 (after_write 3 (found 4 1 running) running.gpr 2);
      gpr = after_write 4 0 (after_write 3 (found 4 1 running) running.gpr);
      lr_addr = 0x80001000;
      lr_valid = 0;
    })
lr-sc_example = lr-sc 0x80000000 0x80000000 4 3 4 1 2 running refl (omega arith) loads stores

-- A call at 0x1000 in the trusted zone, and a return from 0x3000.
dasics_fetch_helper-dasicscall_jr_example :
    (t : Machine) × (dasicscall_jr 0x1000 1 5 0 0x1004 sandbox ≡ ok tt t)
    × (dasics_fetch_helper 0x1004 0x3000 cfi_jump t ≡ ok tt t)
unfolding dasics_in_trusted_zone
dasics_fetch_helper-dasicscall_jr_example =
    dasics_fetch_helper-dasicscall_jr 0x1000 1 5 0 0x1004 0x3000 sandbox refl refl refl

-- A branch eight bytes back.
decode_b-encode_b_example :
    decode_b 0x80000010 (encode_b 0x63 0 1 2 (2 ^ 64 - 8))
    ≡ record { src1 = 1; src2 = 2; dest = 0x80000008 }
decode_b-encode_b_example =
    decode_b-encode_b 0x80000010 0x63 0 1 2 (2 ^ 64 - 8) (omega arith) (omega arith) (omega arith)
      (omega arith) refl (inr (omega arith, omega arith))
