-- ===== src/Mmu/Check.antt =====
-- The checks before translation: canonical addresses, and alignment, which keeps every data access
-- inside one page.
use nemu.Base.{ℕ, ◌+◌, ◌-◌, ◌%◌, ◌^◌, ◌≤◌, ◌<◌, ◌≡◌, ◌≢◌, refl, inl, inr, ◌⊎◌, arith, Bool, true}
use nemu.Base.{
  false, ◌||◌, if◌then◌else◌, ◌!=◌, ◌==◌, field, sym, ◌∙◌, ap, Bool-cases, bit_and, if◌then◌else◌,
}
use nemu.Bits.Pack.{bit_and_mask}
use nemu.Machine.{Machine, Outcome, ok, raised, MemType, read, ifetch, is_ifetch, is_write, set_csr}
use nemu.Machine.Csr
use nemu.Trap.{mmu_translate, mmu_direct, tval_reg, set_tval, effective_mode}
use nemu.Memory.Host.{is_access_len}
use nemu.Mmu.{isa_mmu_check, va_msbs_ok, canonical_fault}

-- The state after a fault of these checks.
abbrev pub blamed : ℕ → ℕ → Machine → Machine
blamed cause vaddr s = set_csr (tval_reg cause s) vaddr s

abbrev pub misaligned_cause : MemType → Bool → ℕ
misaligned_cause type amo = if amo || is_write type then Csr.ex_sam else Csr.ex_lam

abbrev page_cause : MemType → Bool → ℕ
page_cause read false = 13
page_cause _ _ = 15

-- The bits from 38 on are all zero or all one.
abbrev Canonical : ℕ → Type 0
Canonical vaddr = (vaddr < 2 ^ 38) ⊎ ((2 ^ 64 - 2 ^ 38 ≤ vaddr) × (vaddr < 2 ^ 64))

-- The mode of a data access: that before the trap where MPRV is set.
abbrev data_mode : Machine → ℕ
data_mode s =
    if field (s.csr_array Csr.mstatus) 17 1 == 0
    then s.mode
    else field (s.csr_array Csr.mstatus) 11 2

-- Sv39 is on for data accesses.
abbrev Translates : Machine → Type 0
Translates s = (data_mode s < 3) × (field (s.csr_array Csr.satp) 60 4 ≡ 8)

-- How the check of a data access ends.
pub data Verdict (vaddr len : ℕ) (type : MemType) (s : Machine) (r : Outcome ℕ) : Type 0 where
  proceeds :
      (Translates s → Canonical vaddr)
      → vaddr % len ≡ 0
      → vaddr % 2 ^ 12 + len ≤ 2 ^ 12
      → r ≡ ok (if s.data_mmu_state != 0 then mmu_translate else mmu_direct) s
      → Verdict vaddr len type s r
  not_canonical :
      Translates s
      → ¬ (Canonical vaddr)
      → r ≡ raised (page_cause type s.amo) (blamed (page_cause type s.amo) vaddr s)
      → Verdict vaddr len type s r
  misaligned :
      (Translates s → Canonical vaddr)
      → vaddr % len ≢ 0
      → r ≡ raised (misaligned_cause type s.amo) (blamed (misaligned_cause type s.amo) vaddr s)
      → Verdict vaddr len type s r

msbs_sound :
    (vaddr : ℕ) (type : MemType) (s : Machine)
    → is_ifetch type ≡ false
    → va_msbs_ok vaddr type s ≡ true
    → Translates s
    → Canonical vaddr
unfolding va_msbs_ok effective_mode
msbs_sound vaddr type s t h on = ground arith

msbs_complete :
    (vaddr : ℕ) (type : MemType) (s : Machine)
    → is_ifetch type ≡ false
    → va_msbs_ok vaddr type s ≡ false
    → Translates s × ¬ (Canonical vaddr)
unfolding va_msbs_ok effective_mode
msbs_complete vaddr type s t h = ground arith

canonical_fault_lem :
    (vaddr : ℕ) (type : MemType) (s : Machine)
    → is_ifetch type ≡ false
    → canonical_fault vaddr type s
      ≡ raised (page_cause type s.amo) (blamed (page_cause type s.amo) vaddr s)
unfolding canonical_fault set_tval
canonical_fault_lem vaddr ifetch s t = absurd (ground arith)
canonical_fault_lem vaddr read s t = elim (Bool-cases s.amo) [
  | inl y ↦ rw y refl
  | inr n ↦ rw n refl
]
canonical_fault_lem vaddr _ s t = refl

len_cases : (len : ℕ) → is_access_len len ≡ true → (len ≡ 1) ⊎ ((len ≡ 2) ⊎ ((len ≡ 4) ⊎ (len ≡ 8)))
len_cases len h = ground arith

-- The mask of the code is the remainder, for the widths of an access.
low_bits : (vaddr len : ℕ) → is_access_len len ≡ true → bit_and vaddr (len - 1) ≡ vaddr % len
low_bits vaddr len h = elim (len_cases len h) [
  | inl e ↦ rw e (bit_and_mask 0 vaddr)
  | inr (inl e) ↦ rw e (bit_and_mask 1 vaddr)
  | inr (inr (inl e)) ↦ rw e (bit_and_mask 2 vaddr)
  | inr (inr (inr e)) ↦ rw e (bit_and_mask 3 vaddr)
]

one_page :
    (vaddr len : ℕ) → is_access_len len ≡ true → vaddr % len ≡ 0 → vaddr % 2 ^ 12 + len ≤ 2 ^ 12
one_page vaddr len h z = elim (len_cases len h) [
  | inl e ↦ rw e (omega arith)
  | inr (inl e) ↦ rw e (omega (arith, of 2 e))
  | inr (inr (inl e)) ↦ rw e (omega (arith, of 4 e))
  | inr (inr (inr e)) ↦ rw e (omega (arith, of 8 e))
]
  where
    of : (n : ℕ) → len ≡ n → vaddr % n ≡ 0
    of n e = ap (λ (k : ℕ). vaddr % k) (sym e) ∙ z

-- A data access of 1, 2, 4 or 8 bytes goes on exactly where it is aligned and, if Sv39 is on for it, its
-- address has the bits from 38 on all equal; then it lies in one page. An address with other upper bits under
-- Sv39 is a page fault, else one out of line is a misaligned access, with the address as the trap value.
pub isa_mmu_check-Verdict :
    (vaddr len : ℕ) (type : MemType) (s : Machine)
    → is_access_len len ≡ true
    → is_ifetch type ≡ false
    → Verdict vaddr len type s (isa_mmu_check vaddr len type s)
unfolding isa_mmu_check set_tval
isa_mmu_check-Verdict vaddr len type s l t = elim (Bool-cases (va_msbs_ok vaddr type s)) [
  | inr bad ↦
      let off = msbs_complete vaddr type s t bad in
      rw bad (not_canonical off.0 off.1 (canonical_fault_lem vaddr type s t))
  | inl fine ↦ elim (Bool-cases (vaddr % len != 0)) [
    | inr z ↦
        rw (fine, t, low_bits vaddr len l, z)
          (proceeds (msbs_sound vaddr type s t fine) (ground arith)
            (one_page vaddr len l (ground arith)) refl)
    | inl nz ↦
        rw (fine, t, low_bits vaddr len l, nz)
          (misaligned (msbs_sound vaddr type s t fine) (ground arith) refl)
  ]
]
