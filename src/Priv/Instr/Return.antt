-- ===== src/Priv/Instr/Return.antt =====
-- Returns from traps: what mret and sret restore.
use mathlib.Core.Logic.{◌≢◌}
use nemu.Base.{ℕ, ◌≤◌, ◌≡◌, refl, ◌⊎◌, arith, true}
use nemu.Base.{false, ◌&&◌, ◌||◌, if◌then◌else◌, ◌==◌, ◌!=◌, ltb, sym, ◌∙◌}
use nemu.Machine.{Machine, Outcome, ok, mode_m, mode_s, mode_u, set_csr, truth}
use nemu.Machine.Csr
use nemu.Machine.Csr.Mstatus
use nemu.Machine.Laws.{when-on_csr}
use nemu.Trap.Deleg.{SatpIsLegal, mmu_state, update_mmu_state_lem, synced, mmu_state-synced}
use nemu.Trap.Level.{Level, level_s, level_m}
use nemu.Priv.Instr.{mret, sret}

-- A return from level `l` with the status word `w` and the saved pc `epc`.
pub record Returns (l : Level) (s : Machine) (r : Outcome ℕ) : Type 0 where
  pub after : Machine
  pub returns : r ≡ ok (s.csr_array l.epc) after
  pub mode : after.mode ≡ l.pp (s.csr_array Csr.mstatus)
  pub enable : l.ie (after.csr_array Csr.mstatus) ≡ l.pie (s.csr_array Csr.mstatus)
  pub previous_enable : l.pie (after.csr_array Csr.mstatus) ≡ 1
  pub previous_mode : l.pp (after.csr_array Csr.mstatus) ≡ 0
  pub unmodified_loads : Mstatus.mprv (after.csr_array Csr.mstatus) ≡ (
      if l.pp (s.csr_array Csr.mstatus) == mode_m
      then Mstatus.mprv (s.csr_array Csr.mstatus)
      else 0)
  pub others : (a : ℕ) → a ≢ Csr.mstatus → after.csr_array a ≡ s.csr_array a
  pub registers : after.gpr ≡ s.gpr
  pub memory : after.pmem ≡ s.pmem
  pub fetches : after.ifetch_mmu_state ≡ mmu_state true after
  pub loads : after.data_mmu_state ≡ mmu_state false after

abbrev status : (ℕ → ℕ) → Machine → Machine
status f t = set_csr Csr.mstatus (f (t.csr_array Csr.mstatus)) t

-- The state in which mret brings the translation state up to date.
abbrev left_m : Machine → Machine
left_m s =
    let t = status (Mstatus.set_mpie 1) (status (λ w. Mstatus.set_mie (Mstatus.mpie w) w) s) in
    let w = t.csr_array Csr.mstatus in
    let u = record t { mode = Mstatus.mpp w } in
    status (Mstatus.set_mpp mode_u)
      (set_csr Csr.mstatus (if Mstatus.mpp w != mode_m then Mstatus.set_mprv 0 w else w) u)

-- In machine mode with a legal satp, mret restores the mode and the enable bit that the status word
-- holds, and goes on at mepc.
pub mret-Returns : (s : Machine) → SatpIsLegal s → s.mode ≡ mode_m → Returns level_m s (mret s)
unfolding mret
mret-Returns s h m =
    rw (m, when-on_csr, update_mmu_state_lem (left_m s) h)
      record {
        after = synced (left_m s);
        returns = refl;
        mode = ground arith;
        enable = ground arith;
        previous_enable = ground arith;
        previous_mode = ground arith;
        unmodified_loads = ground arith;
        others = λ a p. ground arith;
        registers = refl;
        memory = refl;
        fetches = sym (mmu_state-synced true (left_m s));
        loads = sym (mmu_state-synced false (left_m s));
      }

-- The state in which sret brings the translation state up to date.
abbrev left_s : Machine → Machine
left_s s =
    let t = status (Mstatus.set_spie 1) (status (λ w. Mstatus.set_sie (Mstatus.spie w) w) s) in
    let w = t.csr_array Csr.mstatus in
    let u = record t { mode = Mstatus.spp w } in
    status (Mstatus.set_spp mode_u) (set_csr Csr.mstatus (Mstatus.set_mprv 0 w) u)

spp_ne : (w : ℕ) → (Mstatus.spp w != mode_m) ≡ true
spp_ne w = ground arith

spp_eq : (w : ℕ) → (Mstatus.spp w == mode_m) ≡ false
spp_eq w = ground arith

mprv-set_spp : (v w : ℕ) → Mstatus.mprv (Mstatus.set_spp v w) ≡ Mstatus.mprv w
mprv-set_spp v w = omega arith

mprv-set_mprv : (w : ℕ) → Mstatus.mprv (Mstatus.set_mprv 0 w) ≡ 0
mprv-set_mprv w = omega arith

-- With a legal satp, from supervisor mode with TSR off or from a higher mode, sret restores the
-- mode and the enable bit of the supervisor, and goes on at sepc.
pub sret-Returns :
    (s : Machine)
    → SatpIsLegal s
    → mode_s ≤ s.mode
    → (Mstatus.tsr (s.csr_array Csr.mstatus) ≡ 0) ⊎ (s.mode ≢ mode_s)
    → Returns level_s s (sret s)
unfolding sret
sret-Returns s h m tsr =
    rw (legal s m tsr, spp_ne, update_mmu_state_lem (left_s s) h)
      record {
        after = synced (left_s s);
        returns = refl;
        mode = omega arith;
        enable = omega arith;
        previous_enable = omega arith;
        previous_mode = omega arith;
        unmodified_loads = rw spp_eq (mprv-set_spp mode_u _ ∙ mprv-set_mprv _);
        others = λ a p. ground arith;
        registers = refl;
        memory = refl;
        fetches = sym (mmu_state-synced true (left_s s));
        loads = sym (mmu_state-synced false (left_s s));
      }
  where
    legal :
        (s : Machine)
        → mode_s ≤ s.mode
        → (Mstatus.tsr (s.csr_array Csr.mstatus) ≡ 0) ⊎ (s.mode ≢ mode_s)
        → (((s.mode == mode_s) && truth (Mstatus.tsr (s.csr_array Csr.mstatus)))
            || ltb s.mode mode_s)
          ≡ false
    legal s m tsr = ground arith
