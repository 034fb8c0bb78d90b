-- ===== src/Trap/Entry.antt =====
-- What raise_intr does to the state, at the three levels that can take a trap.
use mathlib.Core.Logic.{◌≢◌}
use nemu.Base.{ℕ, ◌≤◌, ◌<◌, ◌≡◌, refl, ◌∙◌, sym, inl, inr, arith}
use nemu.Base.{true, false, Bool-cases, if◌then◌else◌}
use nemu.Machine.{Machine, Outcome, ok, mode_m, mode_h, mode_s, mode_u, set_csr}
use nemu.Machine.Csr
use nemu.Machine.Csr.Mstatus
use nemu.Machine.Laws.{when-write_csr}
use nemu.Trap.{enter_u, enter_s, enter_m, raise_intr, keeps_tval, get_trap_pc, intr_deleg_u}
use nemu.Trap.{intr_deleg_s}
use nemu.Trap.Deleg.{SatpIsLegal, mmu_state, update_mmu_state_lem, synced, mmu_state-synced}
use nemu.Trap.Level.{Level, level_u, level_s, level_m}
use nemu.Trap.Level.{
  tsr-set_uie, tsr-set_upie, tsr-set_sie, tsr-set_spie, tsr-set_spp, tsr-set_mie, tsr-set_mpie,
  tsr-set_mpp,
}

-- A trap taken at level `l`: the call returns, the cause, the pc and the mode are saved, interrupts
-- of the level are off, and no other register, general register or byte of memory changes.
pub record Enters (l : Level) (nr pc : ℕ) (s : Machine) (r : Outcome ℕ) : Type 0 where
  pub after : Machine
  pub returns : r ≡ ok (get_trap_pc (s.csr_array l.tvec) nr) after
  pub mode : after.mode ≡ l.mode
  pub cause : after.csr_array l.cause ≡ nr
  pub epc : after.csr_array l.epc ≡ pc
  pub tval : after.csr_array l.tval ≡ (if keeps_tval nr then s.csr_array l.tval else 0)
  pub previous_mode : l.pp (after.csr_array Csr.mstatus) ≡ s.mode
  pub previous_enable : l.pie (after.csr_array Csr.mstatus) ≡ l.ie (s.csr_array Csr.mstatus)
  pub disabled : l.ie (after.csr_array Csr.mstatus) ≡ 0
  pub trap_sret : Mstatus.tsr (after.csr_array Csr.mstatus) ≡ Mstatus.tsr (s.csr_array Csr.mstatus)
  pub others :
      (a : ℕ)
      → a ≢ Csr.mstatus
      → a ≢ l.cause
      → a ≢ l.epc
      → a ≢ l.tval
      → after.csr_array a ≡ s.csr_array a
  pub registers : after.gpr ≡ s.gpr
  pub memory : after.pmem ≡ s.pmem
  pub fetches : after.ifetch_mmu_state ≡ mmu_state true after
  pub loads : after.data_mmu_state ≡ mmu_state false after

-- The state in which the entry at level M brings the translation state up to date.
abbrev saved_m : ℕ → ℕ → Machine → Machine
saved_m nr pc s =
    let status = λ (f : ℕ → ℕ) (t : Machine). set_csr Csr.mstatus (f (t.csr_array Csr.mstatus)) t in
    let tval = if keeps_tval nr then s.csr_array Csr.mtval else 0 in
    let saved = status (Mstatus.set_mpp s.mode) (set_csr Csr.mepc pc (set_csr Csr.mcause nr s)) in
    let off = status (Mstatus.set_mie 0) (status (λ w. Mstatus.set_mpie (Mstatus.mie w) w) saved) in
    record (set_csr Csr.mtval tval off) { mode = mode_m }

enter_m-Enters :
    (nr pc : ℕ) (s : Machine)
    → SatpIsLegal s
    → s.mode < 4
    → Enters level_m nr pc s (enter_m nr pc s)
unfolding enter_m
enter_m-Enters nr pc s h m =
    rw (when-write_csr, update_mmu_state_lem (saved_m nr pc s) h)
      record {
        after = synced (saved_m nr pc s);
        returns = refl;
        mode = refl;
        cause = refl;
        epc = refl;
        tval = refl;
        previous_mode = omega arith;
        previous_enable = omega arith;
        disabled = omega arith;
        trap_sret = tsr-set_mie 0 _ ∙ tsr-set_mpie _ _ ∙ tsr-set_mpp _ _;
        others = λ a p q r t. ground arith;
        registers = refl;
        memory = refl;
        fetches = sym (mmu_state-synced true (saved_m nr pc s));
        loads = sym (mmu_state-synced false (saved_m nr pc s));
      }

-- The state in which the entry at level S brings the translation state up to date.
abbrev saved_s : ℕ → ℕ → Machine → Machine
saved_s nr pc s =
    let status = λ (f : ℕ → ℕ) (t : Machine). set_csr Csr.mstatus (f (t.csr_array Csr.mstatus)) t in
    let tval = if keeps_tval nr then s.csr_array Csr.stval else 0 in
    let saved = status (Mstatus.set_spp s.mode) (set_csr Csr.sepc pc (set_csr Csr.scause nr s)) in
    let off = status (Mstatus.set_sie 0) (status (λ w. Mstatus.set_spie (Mstatus.sie w) w) saved) in
    record (set_csr Csr.stval tval off) { mode = mode_s }

enter_s-Enters :
    (nr pc : ℕ) (s : Machine)
    → SatpIsLegal s
    → s.mode < 2
    → Enters level_s nr pc s (enter_s nr pc s)
unfolding enter_s
enter_s-Enters nr pc s h m =
    rw (when-write_csr, update_mmu_state_lem (saved_s nr pc s) h)
      record {
        after = synced (saved_s nr pc s);
        returns = refl;
        mode = refl;
        cause = refl;
        epc = refl;
        tval = refl;
        previous_mode = omega arith;
        previous_enable = omega arith;
        disabled = omega arith;
        trap_sret = tsr-set_sie 0 _ ∙ tsr-set_spie _ _ ∙ tsr-set_spp _ _;
        others = λ a p q r t. ground arith;
        registers = refl;
        memory = refl;
        fetches = sym (mmu_state-synced true (saved_s nr pc s));
        loads = sym (mmu_state-synced false (saved_s nr pc s));
      }

-- The state in which the entry at level U brings the translation state up to date.
abbrev saved_u : ℕ → ℕ → Machine → Machine
saved_u nr pc s =
    let status = λ (f : ℕ → ℕ) (t : Machine). set_csr Csr.mstatus (f (t.csr_array Csr.mstatus)) t in
    let tval = if keeps_tval nr then s.csr_array Csr.utval else 0 in
    let saved = set_csr Csr.uepc pc (set_csr Csr.ucause nr s) in
    let off = status (Mstatus.set_uie 0) (status (λ w. Mstatus.set_upie (Mstatus.uie w) w) saved) in
    record (set_csr Csr.utval tval off) { mode = mode_u }

enter_u-Enters :
    (nr pc : ℕ) (s : Machine)
    → SatpIsLegal s
    → s.mode ≡ 0
    → Enters level_u nr pc s (enter_u nr pc s)
unfolding enter_u
enter_u-Enters nr pc s h m =
    rw (when-write_csr, update_mmu_state_lem (saved_u nr pc s) h)
      record {
        after = synced (saved_u nr pc s);
        returns = refl;
        mode = refl;
        cause = refl;
        epc = refl;
        tval = refl;
        previous_mode = sym m;
        previous_enable = omega arith;
        disabled = omega arith;
        trap_sret = tsr-set_uie 0 _ ∙ tsr-set_upie _ _;
        others = λ a p q r t. ground arith;
        registers = refl;
        memory = refl;
        fetches = sym (mmu_state-synced true (saved_u nr pc s));
        loads = sym (mmu_state-synced false (saved_u nr pc s));
      }

deleg_u_mode : (nr : ℕ) (s : Machine) → intr_deleg_u nr s ≡ true → s.mode ≡ 0
unfolding intr_deleg_u
deleg_u_mode nr s h = ground arith

deleg_s_mode : (nr : ℕ) (s : Machine) → intr_deleg_s nr s ≡ true → s.mode < 3
unfolding intr_deleg_s
deleg_s_mode nr s h = ground arith

-- The level that takes a trap, by the delegation registers.
unfoldable pub level_of : ℕ → Machine → Level
level_of nr s =
    if intr_deleg_u nr s then level_u else (if intr_deleg_s nr s then level_s else level_m)

mode-le-level_of :
    (nr : ℕ) (s : Machine) → s.mode < 4 → s.mode ≢ mode_h → s.mode ≤ (level_of nr s).mode
unfolding level_of intr_deleg_u intr_deleg_s
mode-le-level_of nr s h ne = ground arith

-- With a legal satp and in a mode other than the reserved one a trap is always taken: the level is
-- chosen by delegation, and there the trap is entered as `Enters` says.
pub raise_intr-Enters :
    (nr pc : ℕ) (s : Machine)
    → SatpIsLegal s
    → s.mode < 4
    → s.mode ≢ mode_h
    → Enters (level_of nr s) nr pc s (raise_intr nr pc s)
unfolding raise_intr level_of
raise_intr-Enters nr pc s h m ne = elim (Bool-cases (intr_deleg_u nr s)) [
  | inl u ↦ rw u (enter_u-Enters nr pc s h (deleg_u_mode nr s u))
  | inr nu ↦ elim (Bool-cases (intr_deleg_s nr s)) [
    | inl d ↦ rw (nu, d) (enter_s-Enters nr pc s h (omega (arith, deleg_s_mode nr s d)))
    | inr nd ↦ rw (nu, nd) (enter_m-Enters nr pc s h m)
  ]
]

-- With a legal satp and in a mode other than the reserved one a trap is taken and never lowers the
-- privilege: the mode after it is at least the mode before it.
pub le-mode-raise_intr :
    (nr pc : ℕ) (s : Machine)
    → SatpIsLegal s
    → s.mode < 4
    → s.mode ≢ mode_h
    → (target : ℕ) × (t : Machine) × (raise_intr nr pc s ≡ ok target t) × (s.mode ≤ t.mode)
le-mode-raise_intr nr pc s h m ne =
    let e = raise_intr-Enters nr pc s h m ne in
    (
      get_trap_pc (s.csr_array (level_of nr s).tvec) nr,
      e.after,
      e.returns,
      omega (arith, mode-le-level_of nr s m ne, e.mode),
    )
