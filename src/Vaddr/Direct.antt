-- ===== src/Vaddr/Direct.antt =====
-- Accesses of instructions to memory without translation.
use nemu.Base.{ℕ, zero, suc, ◌+◌, ◌≡◌, ◌≢◌, refl, sym, ap, ◌∙◌, ◌==◌, ◌&&◌, if◌then◌else◌}
use nemu.Base.{◌-◌, ◌!=◌, bit_and, Bool, true, not, Bool-cases, inl, inr, u64}
use nemu.Machine.{Machine, ok, raised, MemType, read, write, ifetch, ifetch_read}
use nemu.Machine.{write_read, mode_m, is_ifetch}
use nemu.Trap.{mmu_direct, mmu_dynamic, effective_mode, set_tval}
use nemu.Mmu.{isa_mmu_check, va_msbs_ok, canonical_fault}
use nemu.Dasics.{
  dasics_ldst_helper, ldst_loop, dasics_match_dlib, match_dlib_loop, lib_hit, dasics_fault,
  dasics_in_trusted_zone, dasics_libcfg_from_index, dasics_libbound_from_index,
}
use nemu.Pmp.{
  isa_pmp_check_permission, pmp_loop, entry_verdict, entry_at, pmpcfg_from_index,
  pmpaddr_from_index, or_later,
}
use nemu.Memory.Host.{load_bytes, store_bytes, is_access_len}
use nemu.Memory.Paddr.{in_pmem}
use nemu.Memory.Paddr.Access.{paddr_read_memory, paddr_write_memory}
use nemu.Vaddr.{vaddr_read, vaddr_read_internal, vaddr_write, dasics_check, resolve_mmu_mode}
use nemu.Vaddr.{read_as_cpu, write_as_cpu}

-- An access that goes to memory: DASICS lets it pass, it is not translated, PMP permits it, and all of
-- it is memory.
pub record Permitted (pc addr len : ℕ) (type : MemType) (mmu_mode : ℕ) (s : Machine) : Type 0 where
  pub width : is_access_len len ≡ true
  pub dasics : dasics_ldst_helper pc addr len type s ≡ ok tt s
  pub direct : resolve_mmu_mode addr len type mmu_mode s ≡ ok mmu_direct s
  pub pmp : isa_pmp_check_permission addr len type s.mode s ≡ true
  pub memory : in_pmem addr ≡ true

pub vaddr_read-Permitted :
    (pc addr len mmu_mode : ℕ) (s : Machine)
    → Permitted pc addr len read mmu_mode s
    → vaddr_read pc addr len mmu_mode s ≡ ok (load_bytes len s.pmem addr) s
unfolding vaddr_read vaddr_read_internal dasics_check read_as_cpu
vaddr_read-Permitted pc addr len mmu_mode s p =
    rw (p.dasics, p.direct)
      (paddr_read_memory addr len read s.mode addr s p.width refl p.pmp p.memory)

pub vaddr_write-Permitted :
    (pc addr len value mmu_mode : ℕ) (s : Machine)
    → Permitted pc addr len write mmu_mode s
    → vaddr_write pc addr len value mmu_mode s
      ≡ ok tt (record s { pmem = store_bytes len s.pmem addr value })
unfolding vaddr_write dasics_check write_as_cpu
vaddr_write-Permitted pc addr len value mmu_mode s p =
    rw (p.dasics, p.direct) (paddr_write_memory addr len value s.mode addr s p.width p.pmp p.memory)

-- The parts of the state that loads, stores and atomic instructions change.
abbrev pub moved : (mem gpr : ℕ → ℕ) (lr_addr lr_valid : ℕ) (amo : Bool) → Machine → Machine
moved mem gpr lr_addr lr_valid amo s = record s {
  pmem = mem;
  gpr = gpr;
  lr_addr = lr_addr;
  lr_valid = lr_valid;
  amo = amo;
}

raised_ne : {A : Type 0} (ex : ℕ) (t s : Machine) (m : A) → raised ex t ≢ ok m s
raised_ne ex t s m e = absurd (ended e)
  where
    ended : {B : Type 0} → raised ex t ≡ ok m s → B
    ended h = cc

ok_again : {A : Type 0} (x m : A) (s t : Machine) → ok x s ≡ ok m s → ok x t ≡ ok m t
ok_again x m s t e = cc

canonical_ne :
    (vaddr : ℕ) (type : MemType) (m : ℕ) (s : Machine) → canonical_fault vaddr type s ≢ ok m s
unfolding canonical_fault set_tval
canonical_ne vaddr ifetch m s = raised_ne _ _ s m
canonical_ne vaddr read m s = raised_ne _ _ s m
canonical_ne vaddr write m s = raised_ne _ _ s m
canonical_ne vaddr ifetch_read m s = raised_ne _ _ s m
canonical_ne vaddr write_read m s = raised_ne _ _ s m

-- No check depends on them.
module _ (mem gpr : ℕ → ℕ) (la lv : ℕ) (am : Bool) (s : Machine) where
  match_dlib_loop-moved :
      (left i addr cfg : ℕ)
      → match_dlib_loop left i addr cfg (moved mem gpr la lv am s)
        ≡ match_dlib_loop left i addr cfg s
  unfolding match_dlib_loop lib_hit dasics_libcfg_from_index dasics_libbound_from_index
  match_dlib_loop-moved zero i addr cfg = refl
  match_dlib_loop-moved (suc left) i addr cfg =
      ap (λ (r : Bool). if lib_hit addr cfg i s then true else r)
        (match_dlib_loop-moved left (i + 1) addr cfg)

  dasics_match_dlib-moved :
      (addr cfg : ℕ)
      → dasics_match_dlib addr cfg (moved mem gpr la lv am s) ≡ dasics_match_dlib addr cfg s
  unfolding dasics_match_dlib
  dasics_match_dlib-moved addr cfg = match_dlib_loop-moved 16 0 addr cfg

  fault_ne : (addr reason : ℕ) → dasics_fault addr reason s ≢ ok tt s
  unfolding dasics_fault set_tval
  fault_ne addr reason = raised_ne _ _ s tt

  ldst_loop-moved :
      (left i vaddr cfg reason : ℕ) (close : Bool)
      → ldst_loop left i vaddr cfg reason close s ≡ ok tt s
      → ldst_loop left i vaddr cfg reason close (moved mem gpr la lv am s)
        ≡ ok tt (moved mem gpr la lv am s)
  unfolding ldst_loop
  ldst_loop-moved zero i vaddr cfg reason close h = refl
  ldst_loop-moved (suc left) i vaddr cfg reason close h =
      let stops = not close && not (dasics_match_dlib (u64 (vaddr + i)) cfg s) in
      rw (dasics_match_dlib-moved (u64 (vaddr + i)) cfg) (elim (Bool-cases stops) [
        | inl y ↦ absurd (fault_ne (u64 (vaddr + i)) reason (sym (rw y refl) ∙ h))
        | inr n ↦ rw n (ldst_loop-moved left (i + 1) vaddr cfg reason close (sym (rw n refl) ∙ h))
      ])

  trusted-moved :
      (pc : ℕ) → dasics_in_trusted_zone pc (moved mem gpr la lv am s) ≡ dasics_in_trusted_zone pc s
  unfolding dasics_in_trusted_zone
  trusted-moved pc = refl

  dasics_ldst_helper-moved :
      (pc vaddr len : ℕ) (type : MemType)
      → dasics_ldst_helper pc vaddr len type s ≡ ok tt s
      → dasics_ldst_helper pc vaddr len type (moved mem gpr la lv am s)
        ≡ ok tt (moved mem gpr la lv am s)
  unfolding dasics_ldst_helper
  dasics_ldst_helper-moved pc vaddr len write h =
      rw (trusted-moved pc) (elim (Bool-cases (dasics_in_trusted_zone pc s)) [
        | inl y ↦ rw y refl
        | inr n ↦ rw n (ldst_loop-moved len 0 vaddr _ _ _ (sym (rw n refl) ∙ h))
      ])
  dasics_ldst_helper-moved pc vaddr len read h =
      rw (trusted-moved pc) (elim (Bool-cases (dasics_in_trusted_zone pc s)) [
        | inl y ↦ rw y refl
        | inr n ↦ rw n (ldst_loop-moved len 0 vaddr _ _ _ (sym (rw n refl) ∙ h))
      ])
  dasics_ldst_helper-moved pc vaddr len ifetch h = refl
  dasics_ldst_helper-moved pc vaddr len ifetch_read h = refl
  dasics_ldst_helper-moved pc vaddr len write_read h = refl

  canonical-moved :
      (vaddr : ℕ) (type : MemType)
      → va_msbs_ok vaddr type (moved mem gpr la lv am s) ≡ va_msbs_ok vaddr type s
  unfolding va_msbs_ok effective_mode
  canonical-moved vaddr type = refl

  isa_mmu_check-moved :
      (vaddr len : ℕ) (type : MemType) (m : ℕ)
      → isa_mmu_check vaddr len type s ≡ ok m s
      → isa_mmu_check vaddr len type (moved mem gpr la lv am s) ≡ ok m (moved mem gpr la lv am s)
  unfolding isa_mmu_check set_tval
  isa_mmu_check-moved vaddr len type m h =
      rw (canonical-moved vaddr type) (elim (Bool-cases (va_msbs_ok vaddr type s)) [
        | inr bad ↦ absurd (canonical_ne vaddr type m s (sym (rw bad refl) ∙ h))
        | inl fine ↦ elim (Bool-cases (is_ifetch type)) [
          | inl f ↦ rw (fine, f) (ok_again _ m s _ (rw (isa_mmu_check, fine, f) at h))
          | inr d ↦ elim (Bool-cases (bit_and vaddr (len - 1) != 0)) [
            | inl z ↦ absurd (raised_ne _ _ s m (rw (isa_mmu_check, fine, d, z) at h))
            | inr nz ↦ rw (fine, d, nz) (ok_again _ m s _ (rw (isa_mmu_check, fine, d, nz) at h))
          ]
        ]
      ])

  resolve_mmu_mode-moved :
      (vaddr len : ℕ) (type : MemType) (mmu_mode m : ℕ)
      → resolve_mmu_mode vaddr len type mmu_mode s ≡ ok m s
      → resolve_mmu_mode vaddr len type mmu_mode (moved mem gpr la lv am s)
        ≡ ok m (moved mem gpr la lv am s)
  unfolding resolve_mmu_mode
  resolve_mmu_mode-moved vaddr len type mmu_mode m h = elim (Bool-cases (mmu_mode == mmu_dynamic)) [
    | inl y ↦ rw y (isa_mmu_check-moved vaddr len type m (sym (rw y refl) ∙ h))
    | inr n ↦ rw n (ok_again mmu_mode m s _ (sym (rw n refl) ∙ h))
  ]

  pmp_loop-moved :
      (left i base addr len : ℕ) (type : MemType) (mode : ℕ)
      → pmp_loop left i base addr len type mode (moved mem gpr la lv am s)
        ≡ pmp_loop left i base addr len type mode s
  unfolding pmp_loop entry_verdict entry_at pmpcfg_from_index pmpaddr_from_index
  pmp_loop-moved zero i base addr len type mode = refl
  pmp_loop-moved (suc left) i base addr len type mode =
      ap (λ (r : Bool). or_later (entry_verdict i base addr len type mode s) r)
        (pmp_loop-moved left (i + 1) (entry_at i base s).tor addr len type mode)

  pmp-moved :
      (addr len : ℕ) (type : MemType) (mode : ℕ)
      → isa_pmp_check_permission addr len type mode (moved mem gpr la lv am s)
        ≡ isa_pmp_check_permission addr len type mode s
  unfolding isa_pmp_check_permission effective_mode
  pmp-moved addr len type mode =
      pmp_loop-moved 16 0 0 addr len type
        (if mode == mode_m then effective_mode (is_ifetch type) s else mode)

  -- What was permitted is permitted afterwards.
  pub Permitted-moved :
      (pc addr len : ℕ) (type : MemType) (mmu_mode : ℕ)
      → Permitted pc addr len type mmu_mode s
      → Permitted pc addr len type mmu_mode (moved mem gpr la lv am s)
  Permitted-moved pc addr len type mmu_mode p = record {
    width = p.width;
    dasics = dasics_ldst_helper-moved pc addr len type p.dasics;
    direct = resolve_mmu_mode-moved addr len type mmu_mode mmu_direct p.direct;
    pmp = pmp-moved addr len type s.mode ∙ p.pmp;
    memory = p.memory;
  }
