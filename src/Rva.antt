-- ===== src/Rva.antt =====
-- The atomic instructions (isa/riscv64/instr/rva/amo.c), in a build without CONFIG_DIFFTEST_STORE_COMMIT.
pub mod Atomic
use nemu.Base.{ℕ, ◌+◌, ◌-◌, ◌*◌, ◌/◌, ◌%◌, ◌^◌, Bool, true, false, not, ltb, ◌&&◌, ◌||◌, ◌==◌, ◌!=◌}
use nemu.Base.{if◌then◌else◌, Option, none, some, u32, u64, bit_and, bit_or, bit_xor}
use nemu.Machine.{
  Machine, M, pure, panic, assert, get, modify, and_then, ◌>>=◌, ◌>>◌, longjmp_exception,
}
use nemu.Machine.{MemType, write, truth}
use nemu.Machine.Csr
use nemu.Trap.{mmu_translate, mmu_dynamic, set_tval}
use nemu.Pmp.{isa_pmp_check_permission}
use nemu.Memory.Paddr.{in_pmem}
use nemu.Mmu.{isa_mmu_check}
use nemu.Mmu.Force.{isa_mmu_translate}
use nemu.Vaddr.{vaddr_read, vaddr_write}
use nemu.Rvi.{reg, write_reg, rtl_lms, rtl_sm, sext_len, truth_value}
use nemu.Rvi.Ops.{biased, c_add}

-- The lower half of a word as a signed number, moved up by 2 ^ 31.
abbrev pub biased32 : ℕ → ℕ
biased32 a = (u32 a + 2 ^ 31) % 2 ^ 32

-- The comparisons of the minima and maxima, by the width of the access.
abbrev pub less : ℕ → ℕ → ℕ → Bool
less width a b = if width == 8 then ltb (biased a) (biased b) else ltb (biased32 a) (biased32 b)

abbrev pub less_unsigned : ℕ → ℕ → ℕ → Bool
less_unsigned width a b = if width == 8 then ltb a b else ltb (u32 a) (u32 b)

-- The switch: what is stored, from the value that was loaded and the second operand; `none` is the
-- failed assertion.
unfoldable pub amo_value : ℕ → ℕ → ℕ → ℕ → Option ℕ
amo_value funct5 width a b =
    if funct5 == 1
    then some b
    else if funct5 == 0
    then some (c_add a b)
    else if funct5 == 8
    then some (bit_or a b)
    else if funct5 == 12
    then some (bit_and a b)
    else if funct5 == 4
    then some (bit_xor a b)
    else if funct5 == 16
    then some (if less width a b then a else b)
    else if funct5 == 20
    then some (if less width b a then a else b)
    else if funct5 == 24
    then some (if less_unsigned width a b then a else b)
    else if funct5 == 28
    then some (if less_unsigned width b a then a else b)
    else none

-- The register is written before its pointer is read for the reservation.
unfoldable pub lr : ℕ → ℕ → ℕ → ℕ → M (Unit {0})
lr pc width rd rs1 = get >>= λ s.
    assert (not s.amo)
    >> rtl_lms pc rd rs1 0 width mmu_dynamic
    >> modify (λ t. record t { lr_addr = reg rs1 t; lr_valid = 1 })

-- The checks of a store that fails for want of a reservation.
unfoldable pub check_failed_store : ℕ → ℕ → M (Unit {0})
check_failed_store addr width = isa_mmu_check addr width write >>= λ mmu.
    (if mmu == mmu_translate then isa_mmu_translate addr width write else pure addr) >>= λ paddr.
    get >>= λ s.
    (if not (in_pmem paddr) || not (isa_pmp_check_permission paddr width write s.mode s)
      then set_tval Csr.ex_saf addr >> longjmp_exception Csr.ex_saf
      else pure tt)

unfoldable pub sc_succeeds : ℕ → Machine → Bool
sc_succeeds rs1 s = (s.lr_addr == reg rs1 s) && truth s.lr_valid

unfoldable pub sc : ℕ → ℕ → ℕ → ℕ → ℕ → M (Unit {0})
sc pc width rd rs1 rs2 s =
    let success = sc_succeeds rs1 s in
    ((if success
          then rtl_sm pc rs2 rs1 0 width mmu_dynamic >> modify (λ t. record t { lr_valid = 0 })
          else check_failed_store (reg rs1 s) width)
        >> write_reg rd (truth_value (not success)))
      s

-- The part of an atomic operation after the load.
unfoldable pub store_result : ℕ → ℕ → ℕ → ℕ → ℕ → Option ℕ → M (Unit {0})
store_result pc width rd rs1 old none = panic
store_result pc width rd rs1 old (some value) = get >>= λ s.
    vaddr_write pc (u64 (reg rs1 s)) width value mmu_dynamic
    >> write_reg rd old
    >> modify (λ t. record t { amo = false })

unfoldable pub amo : ℕ → ℕ → ℕ → ℕ → ℕ → ℕ → M (Unit {0})
amo pc funct5 width rd rs1 rs2 = modify (λ t. record t { amo = true }) >> get >>= λ s.
    vaddr_read pc (u64 (reg rs1 s)) width mmu_dynamic >>= λ v.
    (let old = sext_len width v in
      get >>= λ t. store_result pc width rd rs1 old (amo_value funct5 width old (reg rs2 t)))

abbrev pub width_of : ℕ → ℕ
width_of funct3 = if funct3 % 2 == 1 then 8 else 4

unfoldable pub amo_slow_path : ℕ → ℕ → ℕ → ℕ → ℕ → ℕ → M (Unit {0})
amo_slow_path pc funct7 funct3 rd rs1 rs2 =
    let funct5 = funct7 / 4 in
    let width = width_of funct3 in
    if funct5 == 2
    then lr pc width rd rs1
    else if funct5 == 3
    then sc pc width rd rs1 rs2
    else amo pc funct5 width rd rs1 rs2
