-- ===== src/Trap/Deleg.antt =====
-- update_mmu_state: with a legal satp its assertion holds, and it caches whether accesses are
-- translated.
use nemu.Base.{ℕ, ◌≡◌, ◌⊎◌, arith, Bool, true, false, ◌&&◌}
use nemu.Base.{refl}
use nemu.Base.{if◌then◌else◌, ltb, ◌==◌, ◌!=◌}
use nemu.Machine.{Machine, ok, mode_m}
use nemu.Machine.Csr
use nemu.Trap.{
  effective_mode, update_mmu_state_internal, update_mmu_state, mmu_direct, mmu_translate,
}

-- The mode field of satp is one of the two that writes to it let through.
abbrev pub SatpIsLegal : Machine → Type 0
SatpIsLegal s =
    (Csr.satp_mode (s.csr_array Csr.satp) ≡ 0) ⊎ (Csr.satp_mode (s.csr_array Csr.satp) ≡ 8)

-- What the privileged architecture prescribes: translation below machine mode under Sv39.
unfoldable pub mmu_state : Bool → Machine → ℕ
mmu_state ifetch s =
    if ltb (effective_mode ifetch s) mode_m && (Csr.satp_mode (s.csr_array Csr.satp) == 8)
    then mmu_translate
    else mmu_direct

pub update_mmu_state_internal_lem :
    (ifetch : Bool) (s : Machine)
    → SatpIsLegal s
    → update_mmu_state_internal ifetch s ≡ ok (mmu_state ifetch s) s
unfolding update_mmu_state_internal mmu_state
update_mmu_state_internal_lem ifetch s h = ground arith

-- The state with both cached modes up to date.
abbrev pub synced : Machine → Machine
synced s = record s { ifetch_mmu_state = mmu_state true s; data_mmu_state = mmu_state false s }

pub update_mmu_state_lem :
    (s : Machine)
    → SatpIsLegal s
    → update_mmu_state s ≡ ok (mmu_state false s != s.data_mmu_state) (synced s)
unfolding update_mmu_state
update_mmu_state_lem s h =
    rw (update_mmu_state_internal_lem true s h, update_mmu_state_internal_lem false s h)

pub mmu_state-synced :
    (ifetch : Bool) (s : Machine) → mmu_state ifetch (synced s) ≡ mmu_state ifetch s
unfolding mmu_state effective_mode
mmu_state-synced ifetch s = refl
