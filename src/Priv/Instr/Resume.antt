-- ===== src/Priv/Instr/Resume.antt =====
-- Returns from traps undo the entry.
use mathlib.Core.Logic.{◌≢◌}
use nemu.Base.{ℕ, ◌<◌, ◌≡◌, refl, inl, arith, true}
use nemu.Base.{false, sym, ◌∙◌, ap}
use nemu.Machine.{Machine, Outcome, ok, mode_h}
use nemu.Machine.Csr
use nemu.Machine.Csr.Mstatus
use nemu.Trap.{raise_intr, intr_deleg_u, intr_deleg_s}
use nemu.Trap.Deleg.{SatpIsLegal}
use nemu.Trap.Level.{Level, level_s, level_m}
use nemu.Trap.Entry.{Enters, level_of, raise_intr-Enters}
use nemu.Priv.Instr.{mret, sret}
use nemu.Priv.Instr.Return.{Returns, mret-Returns, sret-Returns}

-- A trap and the return from it: execution goes on where it was, in the same mode and with the same
-- enable bit, and registers and memory are as before.
pub record Resumes (ret : Machine → Outcome ℕ) (l : Level) (nr pc : ℕ) (s : Machine) : Type 0 where
  pub target : ℕ
  pub handler : Machine
  pub after : Machine
  pub enters : raise_intr nr pc s ≡ ok target handler
  pub returns : ret handler ≡ ok pc after
  pub mode : after.mode ≡ s.mode
  pub enable : l.ie (after.csr_array Csr.mstatus) ≡ l.ie (s.csr_array Csr.mstatus)
  pub registers : after.gpr ≡ s.gpr
  pub memory : after.pmem ≡ s.pmem

-- A trap entered at a level, and a return from that level at once.
resumes :
    (ret : Machine → Outcome ℕ) (l : Level) (nr pc : ℕ) (s : Machine)
    (e : Enters l nr pc s (raise_intr nr pc s))
    → Returns l e.after (ret e.after)
    → Resumes ret l nr pc s
resumes ret l nr pc s e r = record {
  target = _;
  handler = e.after;
  after = r.after;
  enters = e.returns;
  returns = r.returns ∙ ap (λ (x : ℕ). ok x r.after) e.epc;
  mode = r.mode ∙ e.previous_mode;
  enable = r.enable ∙ e.previous_enable;
  registers = r.registers ∙ e.registers;
  memory = r.memory ∙ e.memory;
}

level_m_of :
    (nr : ℕ) (s : Machine)
    → intr_deleg_u nr s ≡ false
    → intr_deleg_s nr s ≡ false
    → level_of nr s ≡ level_m
unfolding level_of
level_m_of nr s du ds = rw (du, ds) refl

level_s_of :
    (nr : ℕ) (s : Machine)
    → intr_deleg_u nr s ≡ false
    → intr_deleg_s nr s ≡ true
    → level_of nr s ≡ level_s
unfolding level_of
level_s_of nr s du ds = rw (du, ds) refl

entered_at :
    (l : Level) (nr pc : ℕ) (s : Machine)
    → SatpIsLegal s
    → s.mode < 4
    → s.mode ≢ mode_h
    → level_of nr s ≡ l
    → Enters l nr pc s (raise_intr nr pc s)
entered_at l nr pc s h m ne e = rw (sym e) (raise_intr-Enters nr pc s h m ne)

-- With a legal satp and in a mode other than the reserved one, mret undoes a trap that no register
-- delegates: it goes on at the pc of the trap, with the mode, the enable bit of machine mode, the
-- registers and the memory of before.
pub mret-raise_intr :
    (nr pc : ℕ) (s : Machine)
    → SatpIsLegal s
    → s.mode < 4
    → s.mode ≢ mode_h
    → intr_deleg_u nr s ≡ false
    → intr_deleg_s nr s ≡ false
    → Resumes mret level_m nr pc s
mret-raise_intr nr pc s h m ne du ds =
    let e = entered_at level_m nr pc s h m ne (level_m_of nr s du ds) in
    let satp = e.others Csr.satp (ground arith) (ground arith) (ground arith) (ground arith) in
    resumes mret level_m nr pc s e (mret-Returns e.after (rw satp h) e.mode)

-- With a legal satp, in a mode other than the reserved one and with TSR off, sret undoes a trap
-- that was delegated to supervisor mode: it goes on at the pc of the trap, with the mode, the
-- enable bit of supervisor mode, the registers and the memory of before.
pub sret-raise_intr :
    (nr pc : ℕ) (s : Machine)
    → SatpIsLegal s
    → s.mode < 4
    → s.mode ≢ mode_h
    → intr_deleg_u nr s ≡ false
    → intr_deleg_s nr s ≡ true
    → Mstatus.tsr (s.csr_array Csr.mstatus) ≡ 0
    → Resumes sret level_s nr pc s
sret-raise_intr nr pc s h m ne du ds tsr =
    let e = entered_at level_s nr pc s h m ne (level_s_of nr s du ds) in
    let satp = e.others Csr.satp (ground arith) (ground arith) (ground arith) (ground arith) in
    resumes sret level_s nr pc s e
      (sret-Returns e.after (rw satp h) (omega (arith, e.mode)) (inl (e.trap_sret ∙ tsr)))
