-- ===== src/Priv/Write/Satp.antt =====
-- Writes keep the mode field of satp legal, so the assertion in update_mmu_state_internal holds.
use mathlib.Core.Logic.{◌≢◌}
use nemu.Base.{ℕ, ◌/◌, ◌%◌, ◌^◌, ◌≡◌, refl, ◌⊎◌, arith, Bool}
use nemu.Base.{false, ◌==◌}
use nemu.Machine.{Machine, Outcome}
use nemu.Machine.Csr
use nemu.Machine.Laws.{Ends}
use nemu.Trap.Deleg.{SatpIsLegal}
use nemu.Priv.Write.{store_csr, write_satp, write_pmpaddr, mmu_tlb_flush, hosttlb_flush}
use nemu.Priv.Write.{set_sys_state_flag, join_fcsr}
use nemu.Priv.Write.{after_store, csr_write, is_sys}
use nemu.Priv.Read.{satp_mask}
use nemu.Bits.Mask.{bit_and-clear}
use native.Mathlib.Decide.{ℕ_discrete as dec_eq}
use nemu.Machine.Laws.{Ends-mono, Keeps, seq, bind, when-Keeps, pure-Keeps, csr-Keeps}
use nemu.Priv.Read.{Slot, perf, at, update_mstatus_sd}
use nemu.Trap.{update_mmu_state}
use nemu.Trap.Deleg.{update_mmu_state_lem}
use nemu.Base.{bit_and, ◌||◌}

-- satp is the same afterwards, and the emulator goes on.
abbrev SameSatp : Machine → Outcome (Unit {0}) → Type 0
SameSatp s r = Ends (λ t. t.csr_array Csr.satp ≡ s.csr_array Csr.satp) r

mmu_tlb_flush-SameSatp : (v : ℕ) (s : Machine) → SameSatp s (mmu_tlb_flush v s)
unfolding mmu_tlb_flush hosttlb_flush set_sys_state_flag
mmu_tlb_flush-SameSatp v s = ground arith

store_csr-SameSatp : (a src : ℕ) (s : Machine) → a ≢ Csr.satp → SameSatp s (store_csr a src s)
unfolding store_csr join_fcsr write_pmpaddr mmu_tlb_flush hosttlb_flush set_sys_state_flag
store_csr-SameSatp a src s h = ground arith

mode_of_bits :
    (w : ℕ)
    → w / 2 ^ 60 % 2 ≡ 0
    → w / 2 ^ 61 % 2 ≡ 0
    → w / 2 ^ 62 % 2 ≡ 0
    → (Csr.satp_mode w ≡ 0) ⊎ (Csr.satp_mode w ≡ 8)
mode_of_bits w p q r = omega arith

masked_mode :
    (src : ℕ)
    → (Csr.satp_mode (bit_and satp_mask src) ≡ 0) ⊎ (Csr.satp_mode (bit_and satp_mask src) ≡ 8)
masked_mode src =
    mode_of_bits (bit_and satp_mask src) (bit_and-clear satp_mask src 60 refl)
      (bit_and-clear satp_mask src 61 refl) (bit_and-clear satp_mask src 62 refl)

write_satp-Ends : (src : ℕ) (s : Machine) → SatpIsLegal s → Ends SatpIsLegal (write_satp src s)
unfolding write_satp
write_satp-Ends src s h = ground (arith, masked_mode src)

satp_branch : (src : ℕ) (s : Machine) → store_csr Csr.satp src s ≡ write_satp src s
unfolding store_csr
satp_branch src s = refl

store_csr-Keeps : (a src : ℕ) → Keeps SatpIsLegal (store_csr a src)
store_csr-Keeps a src = record {
  run = λ s h. elim (dec_eq a Csr.satp) [
    | yes e ↦ rw (e, satp_branch src s) (write_satp-Ends src s h)
    | no n ↦ Ends-mono (store_csr a src s) (λ t e. rw e h) (store_csr-SameSatp a src s n)
  ];
}

update_mmu_state-Keeps : Keeps SatpIsLegal update_mmu_state
update_mmu_state-Keeps = record { run = λ s h. rw (update_mmu_state_lem s h) h }

mmu_tlb_flush-Keeps : (v : ℕ) → Keeps SatpIsLegal (mmu_tlb_flush v)
mmu_tlb_flush-Keeps v = record {
  run = λ s h. Ends-mono (mmu_tlb_flush v s) (λ t e. rw e h) (mmu_tlb_flush-SameSatp v s);
}

set_sys_state_flag-Keeps : (flag : ℕ) → Keeps SatpIsLegal (set_sys_state_flag flag)
unfolding set_sys_state_flag
set_sys_state_flag-Keeps flag = record { run = λ s h. h }

update_mstatus_sd-Keeps : Keeps SatpIsLegal update_mstatus_sd
unfolding update_mstatus_sd
update_mstatus_sd-Keeps = record { run = λ s h. h }

-- The registers whose writes reload the rounding mode.
abbrev pub is_fp : ℕ → Bool
is_fp a = (a == Csr.fflags) || (a == Csr.frm) || (a == Csr.fcsr)

after_store-Keeps : (a : ℕ) → is_fp a ≡ false → Keeps SatpIsLegal (after_store a)
unfolding after_store
after_store-Keeps a f = rw f (
    bind (csr-Keeps Csr.fcsr) λ _. seq (pure-Keeps tt) (
      seq (when-Keeps ((a == Csr.sstatus) || (a == Csr.mstatus) || false) update_mstatus_sd-Keeps) (
        seq
          (when-Keeps ((a == Csr.mstatus) || (a == Csr.satp))
            (bind update_mmu_state-Keeps (λ _. pure-Keeps tt)))
          (seq (when-Keeps (a == Csr.satp) (mmu_tlb_flush-Keeps 0)) (
            seq (when-Keeps (is_sys a) (set_sys_state_flag-Keeps 1)) (
              when-Keeps ((a == Csr.ustatus) || (a == Csr.uie) || (a == Csr.uip))
                (set_sys_state_flag-Keeps 1)))))))

abbrev pub writes_fp : Slot → Bool
writes_fp perf = false
writes_fp (at a) = is_fp a

-- With a legal satp, a write to any register but fflags, frm and fcsr keeps the mode of satp legal
-- and never stops the emulator, whatever is written.
pub csr_write-Keeps :
    (slot : Slot) (src : ℕ) (s : Machine)
    → SatpIsLegal s
    → writes_fp slot ≡ false
    → Ends SatpIsLegal (csr_write slot src s)
unfolding csr_write
csr_write-Keeps perf src s h f = h
csr_write-Keeps (at a) src s h f = (seq (store_csr-Keeps a src) (after_store-Keeps a f)).run s h
