-- ===== src/Rvi/Calls.antt =====
-- Jumps, and calls of a library under DASICS.
use nemu.Base.{ℕ, ◌+◌, ◌-◌, ◌*◌, ◌/◌, ◌^◌, ◌<◌, ◌≡◌, refl, arith, inl, inr}
use nemu.Base.{true, false, Bool-cases, u64, bit_and}
use nemu.Machine.{Machine, Outcome, ok, raised, set_csr}
use nemu.Machine.Csr
use nemu.Bits.{bit_and_step}
use nemu.Bits.Pack.{bit_and_ones}
use nemu.Dasics.{dasics_in_trusted_zone, dasics_check_trusted, dasics_fetch_helper, cfi_jump}
use nemu.Rvi.{reg, rtl_j, jalr, rtl_set_dretpc, dasicscall_jr}
use nemu.Rvi.Ops.{c_add}
use nemu.Rvi.Memory.{after_write, write_reg_lem}

even_target : (a : ℕ) → a < 2 ^ 64 → bit_and a (2 ^ 64 - 2) ≡ a / 2 * 2
even_target a h = omega (arith, bit_and_step a (2 ^ 64 - 2), bit_and_ones 63 (a / 2) (omega arith))

-- The target of an indirect jump: the sum, rounded down to an even address.
abbrev pub even_sum : ℕ → ℕ → ℕ
even_sum a imm = u64 (a + imm) / 2 * 2

target_lem : (a imm : ℕ) → bit_and (c_add a imm) (2 ^ 64 - 2) ≡ even_sum a imm
unfolding c_add
target_lem a imm = even_target (u64 (a + imm)) (omega arith)

-- After a jump that links.
abbrev pub jumped : ℕ → ℕ → ℕ → Machine → Machine
jumped rd link target s = record s { gpr = after_write rd link s.gpr; pc = target }

-- An indirect jump goes to the sum of the register, as it was, and the immediate, rounded down to an
-- even address; the destination receives the address of the next instruction.
pub jalr-jumped :
    (rd rs1 imm snpc : ℕ) (s : Machine)
    → jalr rd rs1 imm snpc s ≡ ok tt (jumped rd snpc (even_sum (reg rs1 s) imm) s)
unfolding jalr rtl_j
jalr-jumped rd rs1 imm snpc s = rw (write_reg_lem rd snpc s, target_lem (reg rs1 s) imm) refl

-- How a call of a library ends.
pub data CallVerdict (pc rd rs1 imm snpc : ℕ) (s : Machine) (r : Outcome (Unit {0})) : Type 0 where
  calls :
      dasics_in_trusted_zone pc s ≡ true
      → r ≡ jalr rd rs1 imm snpc (set_csr Csr.dretpc snpc s)
      → CallVerdict pc rd rs1 imm snpc s r
  refused :
      dasics_in_trusted_zone pc s ≡ false
      → r ≡ raised Csr.ex_ii s
      → CallVerdict pc rd rs1 imm snpc s r

-- Trusted code jumps as `jalr` does and leaves the return address with DASICS, and untrusted code gets
-- an illegal instruction that changes nothing.
pub dasicscall_jr-CallVerdict :
    (pc rd rs1 imm snpc : ℕ) (s : Machine)
    → CallVerdict pc rd rs1 imm snpc s (dasicscall_jr pc rd rs1 imm snpc s)
unfolding dasicscall_jr rtl_set_dretpc dasics_check_trusted jalr
dasicscall_jr-CallVerdict pc rd rs1 imm snpc s = elim (Bool-cases (dasics_in_trusted_zone pc s)) [
  | inl y ↦ rw y (calls y refl)
  | inr n ↦ rw n (refused n refl)
]

trusted-jumped :
    (a rd snpc target : ℕ) (s : Machine)
    → dasics_in_trusted_zone a (jumped rd snpc target (set_csr Csr.dretpc snpc s))
      ≡ dasics_in_trusted_zone a s
unfolding dasics_in_trusted_zone
trusted-jumped a rd snpc target s = refl

returns :
    (rd snpc target prev_pc : ℕ) (s : Machine)
    → dasics_in_trusted_zone snpc s ≡ true
    → dasics_in_trusted_zone prev_pc s ≡ false
    → dasics_fetch_helper snpc prev_pc cfi_jump (jumped rd snpc target (set_csr Csr.dretpc snpc s))
      ≡ ok tt (jumped rd snpc target (set_csr Csr.dretpc snpc s))
unfolding dasics_fetch_helper
returns rd snpc target prev_pc s t u =
    rw (trusted-jumped snpc rd snpc target s, trusted-jumped prev_pc rd snpc target s, t, u)
      (ground arith)

-- After a call from trusted code, any jump of untrusted code to the instruction after the call passes
-- the check of fetches, where that instruction is trusted.
pub dasics_fetch_helper-dasicscall_jr :
    (pc rd rs1 imm snpc prev_pc : ℕ) (s : Machine)
    → dasics_in_trusted_zone pc s ≡ true
    → dasics_in_trusted_zone snpc s ≡ true
    → dasics_in_trusted_zone prev_pc s ≡ false
    → (t : Machine) × (dasicscall_jr pc rd rs1 imm snpc s ≡ ok tt t)
      × (dasics_fetch_helper snpc prev_pc cfi_jump t ≡ ok tt t)
unfolding dasicscall_jr rtl_set_dretpc dasics_check_trusted rtl_j
dasics_fetch_helper-dasicscall_jr pc rd rs1 imm snpc prev_pc s p t u = (
  jumped rd snpc (even_sum (reg rs1 s) imm) (set_csr Csr.dretpc snpc s),
  rw (p, write_reg_lem rd snpc (set_csr Csr.dretpc snpc s), target_lem (reg rs1 s) imm) refl,
  returns rd snpc (even_sum (reg rs1 s) imm) prev_pc s t u,
)
