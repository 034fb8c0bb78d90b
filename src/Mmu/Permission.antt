-- ===== src/Mmu/Permission.antt =====
-- What the permission check asks of a page.
use nemu.Base.{ℕ, ◌≡◌, refl, inl, inr, ◌⊎◌, arith, Bool, true}
use nemu.Base.{
  false, not, ◌&&◌, ◌||◌, if◌then◌else◌, ◌==◌, ◌∙◌, Bool-cases, and_left, and_right, ◌↔◌,
}
use nemu.Machine.{
  Machine, Outcome, ok, raised, MemType, ifetch, read, write, ifetch_read, write_read, is_ifetch,
}
use nemu.Machine.{mode_u, mode_s, set_csr, truth}
use nemu.Machine.Csr
use nemu.Machine.Csr.Mstatus
use nemu.Trap.{effective_mode, set_tval, tval_reg}
use nemu.Memory.Paddr.Faults.{faulted}
use nemu.Mmu.{
  check_permission, check_access, page_ok, mpk_bit, page_fault, mpk_fault, mfr_lf, mfr_sf,
}
use nemu.Mmu.Pte

-- The bits that the kind of access needs.
pub KindAllows : ℕ → MemType → Machine → Type 0
KindAllows pte ifetch s = Pte.x pte ≡ 1
KindAllows pte read s =
    (Pte.r pte ≡ 1) ⊎ ((Mstatus.mxr (s.csr_array Csr.mstatus) ≡ 1) × (Pte.x pte ≡ 1))
KindAllows pte _ s = Pte.w pte ≡ 1

-- The rules of Sv39 for an access in user mode (0) or supervisor mode (1).
pub record PageAllows (pte : ℕ) (type : MemType) (mode : ℕ) (s : Machine) : Type 0 where
  pub valid : Pte.v pte ≡ 1
  pub owner :
      ((mode ≡ mode_u) × (Pte.u pte ≡ 1))
      ⊎ ((mode ≡ mode_s)
          × ((Pte.u pte ≡ 0)
              ⊎ ((Mstatus.sum (s.csr_array Csr.mstatus) ≡ 1) × (is_ifetch type ≡ false))))
  pub kind : KindAllows pte type s

page_ok_sound :
    (pte mode : ℕ) (fetches : Bool) (s : Machine)
    → (mode ≡ mode_u) ⊎ (mode ≡ mode_s)
    → page_ok pte true mode fetches s ≡ true
    → (Pte.v pte ≡ 1)
      × (((mode ≡ mode_u) × (Pte.u pte ≡ 1))
          ⊎ ((mode ≡ mode_s)
              × ((Pte.u pte ≡ 0)
                  ⊎ ((Mstatus.sum (s.csr_array Csr.mstatus) ≡ 1) × (fetches ≡ false)))))
unfolding page_ok
page_ok_sound pte mode fetches s m h = ground arith

page_ok_complete :
    (pte mode : ℕ) (fetches : Bool) (s : Machine)
    → Pte.v pte ≡ 1
    → ((mode ≡ mode_u) × (Pte.u pte ≡ 1))
      ⊎ ((mode ≡ mode_s)
          × ((Pte.u pte ≡ 0) ⊎ ((Mstatus.sum (s.csr_array Csr.mstatus) ≡ 1) × (fetches ≡ false))))
    → page_ok pte true mode fetches s ≡ true
unfolding page_ok
page_ok_complete pte mode fetches s v h = ground arith

-- The bits of KindAllows as a test.
kind_ok : ℕ → MemType → Machine → Bool
kind_ok pte ifetch s = truth (Pte.x pte)
kind_ok pte read s =
    truth (Pte.r pte) || (truth (Mstatus.mxr (s.csr_array Csr.mstatus)) && truth (Pte.x pte))
kind_ok pte _ s = truth (Pte.w pte)

kind_ok_iff :
    (pte : ℕ) (type : MemType) (s : Machine) → (kind_ok pte type s ≡ true) ↔ KindAllows pte type s
unfolding kind_ok KindAllows
kind_ok_iff pte ifetch s = ground arith
kind_ok_iff pte read s = ground arith
kind_ok_iff pte write s = ground arith
kind_ok_iff pte ifetch_read s = ground arith
kind_ok_iff pte write_read s = ground arith

-- The protection keys: a load may be disabled, a store by either bit, a fetch never is.
pub key_denies : ℕ → MemType → ℕ → Machine → Bool
key_denies pte ifetch mode s = false
key_denies pte read mode s = mpk_bit 0 pte mode s
key_denies pte _ mode s = mpk_bit 0 pte mode s || mpk_bit 1 pte mode s

pub fault_cause : MemType → Bool → ℕ
fault_cause ifetch amo = Csr.ex_ipf
fault_cause read amo = if amo then Csr.ex_spf else Csr.ex_lpf
fault_cause _ amo = Csr.ex_spf

pub key_reason : MemType → ℕ
key_reason read = mfr_lf
key_reason _ = mfr_sf

-- The state after a protection key fault: its reason and its address are stored.
pub key_faulted : ℕ → ℕ → ℕ → Machine → Machine
key_faulted ex reason vaddr s =
    let t = set_csr Csr.dfreason reason s in set_csr (tval_reg ex t) vaddr t

pub key_cause : ℕ → ℕ
key_cause mode = if mode == mode_u then Csr.ex_ducf else Csr.ex_dscf

-- How the check ends, by the rules.
pub data Verdict (pte vaddr : ℕ) (type : MemType) (mode : ℕ) (s : Machine) (r : Outcome (Unit {0}))
    : Type 0 where
  allowed :
      PageAllows pte type mode s
      → key_denies pte type mode s ≡ false
      → r ≡ ok tt s
      → Verdict pte vaddr type mode s r
  page_faults :
      ¬ PageAllows pte type mode s
      → r ≡ raised (fault_cause type s.amo) (faulted (fault_cause type s.amo) vaddr s)
      → Verdict pte vaddr type mode s r
  key_faults :
      PageAllows pte type mode s
      → key_denies pte type mode s ≡ true
      → r ≡ raised (key_cause mode) (key_faulted (key_cause mode) (key_reason type) vaddr s)
      → Verdict pte vaddr type mode s r

-- A test the other way round.
if-not : {A : Type 0} (b : Bool) (x y : A) → (if not b then x else y) ≡ (if b then y else x)
if-not true x y = refl
if-not false x y = refl

-- The body of the check, by what it tests.
check_access_lem :
    (pte vaddr : ℕ) (type : MemType) (mode : ℕ) (s : Machine) (good : Bool)
    → (is_ifetch type && s.amo) ≡ false
    → check_access pte good vaddr type mode s ≡ (
        if good && kind_ok pte type s
        then (if key_denies pte type mode s
            then raised (key_cause mode) (key_faulted (key_cause mode) (key_reason type) vaddr s)
            else ok tt s)
        else raised (fault_cause type s.amo) (faulted (fault_cause type s.amo) vaddr s))
unfolding check_access kind_ok key_denies key_cause key_faulted key_reason fault_cause page_fault
    mpk_fault set_tval
check_access_lem pte vaddr ifetch mode s good a = rw a (if-not (good && kind_ok pte ifetch s) _ _)
check_access_lem pte vaddr read mode s good a = if-not (good && kind_ok pte read s) _ _
check_access_lem pte vaddr write mode s good a = if-not (good && kind_ok pte write s) _ _
check_access_lem pte vaddr ifetch_read mode s good a =
    if-not (good && kind_ok pte ifetch_read s) _ _
check_access_lem pte vaddr write_read mode s good a = if-not (good && kind_ok pte write_read s) _ _

module _ (pte : ℕ) (type : MemType) (mode : ℕ) (s : Machine) where
  sound :
      (mode ≡ mode_u) ⊎ (mode ≡ mode_s)
      → (page_ok pte true mode (is_ifetch type) s && kind_ok pte type s) ≡ true
      → PageAllows pte type mode s
  sound m h =
      let p = page_ok_sound pte mode (is_ifetch type) s m (and_left _ _ h) in
      record { valid = p.0; owner = p.1; kind = (kind_ok_iff pte type s).0 (and_right _ _ h) }

  complete :
      PageAllows pte type mode s
      → (page_ok pte true mode (is_ifetch type) s && kind_ok pte type s) ≡ true
  complete h =
      rw (page_ok_complete pte mode (is_ifetch type) s h.valid h.owner)
        ((kind_ok_iff pte type s).1 h.kind)

assert_mode :
    (mode : ℕ) → (mode ≡ mode_u) ⊎ (mode ≡ mode_s) → ((mode == mode_u) || (mode == mode_s)) ≡ true
assert_mode mode m = ground arith

check_access-Verdict :
    (pte vaddr : ℕ) (type : MemType) (mode : ℕ) (s : Machine)
    → (mode ≡ mode_u) ⊎ (mode ≡ mode_s)
    → (is_ifetch type && s.amo) ≡ false
    → Verdict pte vaddr type mode s
        (check_access pte (page_ok pte true mode (is_ifetch type) s) vaddr type mode s)
check_access-Verdict pte vaddr type mode s m a =
    elim (Bool-cases (page_ok pte true mode (is_ifetch type) s && kind_ok pte type s)) [
      | inr bad ↦
          page_faults (λ h. absurd (ground (arith, bad, complete pte type mode s h)))
            (check_access_lem pte vaddr type mode s _ a ∙ rw bad refl)
      | inl good ↦ elim (Bool-cases (key_denies pte type mode s)) [
        | inl key ↦
            key_faults (sound pte type mode s m good) key
              (check_access_lem pte vaddr type mode s _ a ∙ rw (good, key) refl)
        | inr free ↦
            allowed (sound pte type mode s m good) free
              (check_access_lem pte vaddr type mode s _ a ∙ rw (good, free) refl)
      ]
    ]

-- For an entry that the walk found valid, with user or supervisor mode as the effective mode, the
-- check follows the rules of Sv39, then the protection keys; a fetch is assumed not to be part of
-- an AMO.
pub check_permission-Verdict :
    (pte vaddr : ℕ) (type : MemType) (s : Machine)
    → (effective_mode (is_ifetch type) s ≡ mode_u) ⊎ (effective_mode (is_ifetch type) s ≡ mode_s)
    → (is_ifetch type && s.amo) ≡ false
    → Verdict pte vaddr type
        (effective_mode (is_ifetch type) s)
        s
        (check_permission pte true vaddr type s)
unfolding check_permission
check_permission-Verdict pte vaddr type s m a =
    rw (assert_mode (effective_mode (is_ifetch type) s) m)
      (check_access-Verdict pte vaddr type (effective_mode (is_ifetch type) s) s m a)
