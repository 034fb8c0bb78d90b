-- ===== src/Trap.antt =====
-- Delegation, taking a trap and choosing an interrupt (isa/riscv64/system/intr.c), with
-- update_mmu_state of isa/riscv64/system/mmu.c, which every change of mode calls.
pub mod Deleg
pub mod Level
pub mod Entry
pub mod Query
use nemu.Base.{ℕ, ◌+◌, ◌-◌, ◌*◌, ◌/◌, ◌%◌, ◌^◌, Bool, true, false, not, ◌&&◌, ◌||◌, ltb, ◌==◌, ◌!=◌}
use nemu.Base.{if◌then◌else◌, field, set_field, bit_and, bit_or, List, [], ◌∷◌}
use nemu.Machine.{Machine, M, ok, pure, ◌>>=◌, ◌>>◌, assert, get, csr, write_csr, on_csr, set_mode}
use nemu.Machine.{when, truth, mode_u, mode_s, mode_m, update, set_csr, and_then}
use nemu.Machine.Csr
use nemu.Machine.Csr.Mstatus

abbrev pub intr_bit : ℕ
intr_bit = 2 ^ 63

abbrev pub intr_empty : ℕ
intr_empty = 2 ^ 64 - 1

unfoldable pub intr_deleg_s : ℕ → Machine → Bool
intr_deleg_s nr s =
    let deleg = s.csr_array (if truth (bit_and nr intr_bit) then Csr.mideleg else Csr.medeleg) in
    (bit_and deleg (2 ^ (nr % 64)) != 0) && ltb s.mode mode_m

-- `1 << k` is an `int`: at k = 31 it is negative, and is extended with its sign.
abbrev pub int_bit : ℕ → ℕ
int_bit k = if k == 31 then 2 ^ 64 - 2 ^ 31 else 2 ^ k

unfoldable pub intr_deleg_u : ℕ → Machine → Bool
intr_deleg_u nr s =
    let deleg = s.csr_array (if truth (bit_and nr intr_bit) then Csr.sideleg else Csr.sedeleg) in
    (bit_and deleg (int_bit (nr % 32)) != 0) && (s.mode == mode_u)

-- `INTR_TVAL_REG(ex) = v`.
unfoldable pub tval_reg : ℕ → Machine → ℕ
tval_reg ex s =
    if intr_deleg_u ex s then Csr.utval else (if intr_deleg_s ex s then Csr.stval else Csr.mtval)

unfoldable pub set_tval : ℕ → ℕ → M (Unit {0})
set_tval ex v s = ok tt (set_csr (tval_reg ex s) v s)

-- The target of a trap; `xtvec` is the register, `xcause` the cause.
unfoldable pub get_trap_pc : ℕ → ℕ → ℕ
get_trap_pc xtvec xcause =
    let base = xtvec / 4 * 4 in
    let is_intr = xcause / 2 ^ 63 == 1 in
    if is_intr && (xtvec % 2 == 1) then (base + xcause % 64 * 4) % 2 ^ 64 else base

abbrev pub mmu_direct : ℕ
mmu_direct = 0

abbrev pub mmu_translate : ℕ
mmu_translate = 1

abbrev pub mmu_dynamic : ℕ
mmu_dynamic = 2

-- The mode in which an access is checked.
unfoldable pub effective_mode : Bool → Machine → ℕ
effective_mode ifetch s =
    if truth (Mstatus.mprv (s.csr_array Csr.mstatus)) && not ifetch
    then Mstatus.mpp (s.csr_array Csr.mstatus)
    else s.mode

unfoldable pub update_mmu_state_internal : Bool → M ℕ
update_mmu_state_internal ifetch s =
    let satp_mode = Csr.satp_mode (s.csr_array Csr.satp) in
    if ltb (effective_mode ifetch s) mode_m
    then ((assert ((satp_mode == 0) || (satp_mode == 8))
          >> pure (if satp_mode == 8 then mmu_translate else mmu_direct))
        s)
    else ok mmu_direct s

unfoldable pub update_mmu_state : M Bool
update_mmu_state = do
  i ← update_mmu_state_internal true
  s ← get
  d ← update_mmu_state_internal false
  t ← get
  λ _. ok (d != s.data_mmu_state) (record t { ifetch_mmu_state = i; data_mmu_state = d })

-- The causes for which the trap value register keeps what the fault stored there.
unfoldable pub keeps_tval : ℕ → Bool
keeps_tval nr =
    (nr == Csr.ex_ipf)
    || (nr == Csr.ex_lpf)
    || (nr == Csr.ex_spf)
    || (nr == Csr.ex_lam)
    || (nr == Csr.ex_sam)
    || (nr == Csr.ex_iaf)
    || (nr == Csr.ex_laf)
    || (nr == Csr.ex_saf)
    || (nr == Csr.ex_ducf)
    || (nr == Csr.ex_dscf)

unfoldable pub enter_u : ℕ → ℕ → M ℕ
enter_u nr epc = do
  write_csr Csr.ucause nr
  write_csr Csr.uepc epc
  on_csr Csr.mstatus (λ w. Mstatus.set_upie (Mstatus.uie w) w)
  on_csr Csr.mstatus (Mstatus.set_uie 0)
  when (not (keeps_tval nr)) (write_csr Csr.utval 0)
  set_mode mode_u
  _ ← update_mmu_state
  tvec ← csr Csr.utvec
  cause ← csr Csr.ucause
  pure (get_trap_pc tvec cause)

unfoldable pub enter_s : ℕ → ℕ → M ℕ
enter_s nr epc = do
  write_csr Csr.scause nr
  write_csr Csr.sepc epc
  s ← get
  on_csr Csr.mstatus (Mstatus.set_spp s.mode)
  on_csr Csr.mstatus (λ w. Mstatus.set_spie (Mstatus.sie w) w)
  on_csr Csr.mstatus (Mstatus.set_sie 0)
  when (not (keeps_tval nr)) (write_csr Csr.stval 0)
  set_mode mode_s
  _ ← update_mmu_state
  tvec ← csr Csr.stvec
  cause ← csr Csr.scause
  pure (get_trap_pc tvec cause)

unfoldable pub enter_m : ℕ → ℕ → M ℕ
enter_m nr epc = do
  write_csr Csr.mcause nr
  write_csr Csr.mepc epc
  s ← get
  on_csr Csr.mstatus (Mstatus.set_mpp s.mode)
  on_csr Csr.mstatus (λ w. Mstatus.set_mpie (Mstatus.mie w) w)
  on_csr Csr.mstatus (Mstatus.set_mie 0)
  when (not (keeps_tval nr)) (write_csr Csr.mtval 0)
  set_mode mode_m
  _ ← update_mmu_state
  tvec ← csr Csr.mtvec
  cause ← csr Csr.mcause
  pure (get_trap_pc tvec cause)

-- Takes the trap `nr` at `epc`; the result is where execution goes on.
unfoldable pub raise_intr : ℕ → ℕ → M ℕ
raise_intr nr epc s =
    if intr_deleg_u nr s
    then enter_u nr epc s
    else (if intr_deleg_s nr s then enter_s nr epc s else enter_m nr epc s)

-- The interrupts in order of priority: MEIP MSIP MTIP SEIP SSIP STIP UEIP USIP UTIP.
abbrev pub priority : List ℕ
priority = 11 ∷ 3 ∷ 7 ∷ 9 ∷ 1 ∷ 5 ∷ 8 ∷ 0 ∷ 4 ∷ []

-- Whether the delegations and the enable bits let an interrupt be taken in this mode.
unfoldable pub global_enable : ℕ → Machine → Bool
global_enable irq s =
    let st = s.csr_array Csr.mstatus in
    let deleg_u = bit_and (s.csr_array Csr.sideleg) (2 ^ irq) != 0 in
    let deleg_s = (bit_and (s.csr_array Csr.mideleg) (2 ^ irq) != 0) && not deleg_u in
    if deleg_u
    then (s.mode == mode_u) && truth (Mstatus.uie st)
    else (if deleg_s
        then ((s.mode == mode_s) && truth (Mstatus.sie st)) || ltb s.mode mode_s
        else ((s.mode == mode_m) && truth (Mstatus.mie st)) || ltb s.mode mode_m)

-- The loop over the priorities, from some position on.
unfoldable pub query_loop : ℕ → List ℕ → Machine → ℕ
query_loop intr_vec [] s = intr_empty
query_loop intr_vec (irq ∷ rest) s =
    let later = query_loop intr_vec rest s in
    if (bit_and intr_vec (2 ^ irq) != 0) && global_enable irq s then bit_or irq intr_bit else later

unfoldable pub isa_query_intr : Machine → ℕ
isa_query_intr s =
    let intr_vec = bit_and (s.csr_array Csr.mie) (s.csr_array Csr.mip) in
    if intr_vec == 0 then intr_empty else query_loop intr_vec priority s
