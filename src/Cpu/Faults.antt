-- ===== src/Cpu/Faults.antt =====
-- Exceptions: where they are reported, and the transfers that DASICS refuses.
use nemu.Base.{ℕ, ◌≡◌, ◌≢◌, ◌<◌, refl, ◌∙◌, ap, arith, Bool, true, false, ◌==◌, if◌then◌else◌}
use nemu.Base.{some}
use nemu.Machine.{Machine, M, ok, raised, mode_h}
use nemu.Machine.Csr
use nemu.Trap.{get_trap_pc, tval_reg}
use nemu.Trap.Entry.{level_of, raise_intr-Enters}
use nemu.Trap.Deleg.{SatpIsLegal}
use nemu.Dasics.{cfi_none, dasics_fetch_helper, dfr_jf}
use nemu.Dasics.Fetch.{Permitted, is_open_fetch, passes, faults, dasics_fetch_helper-FetchVerdict}
use nemu.Dasics.Ldst.{dasics_cause}
use nemu.Dasics.Ldst as Ldst
use nemu.Instr.{Decode}
use nemu.Instr.Ids.{ExecId}
use nemu.Cpu.{Prev, faulted, execute_one, isa_fetch_decode, exec_decoded}
use nemu.Cpu.Loop.{is_jump_fault, handle_exception, handle}

-- Where an exception is reported.
abbrev pub reported_at : (cause pc : ℕ) → Prev → Machine → ℕ
reported_at cause pc prev s = if is_jump_fault cause s then prev.prev_pc else pc

-- How an exception is taken: the handler of the level that delegation chooses goes on, with the address that
-- is reported and the cause in the registers of the level, and nothing of memory and registers is changed.
pub record Taken (cause epc : ℕ) (s : Machine) (t : Machine) : Type 0 where
  pub mode : t.mode ≡ (level_of cause s).mode
  pub reported : t.csr_array (level_of cause s).epc ≡ epc
  pub causes : t.csr_array (level_of cause s).cause ≡ cause
  pub goes_on : t.pc ≡ get_trap_pc (s.csr_array (level_of cause s).tvec) cause
  pub no_amo : t.amo ≡ false
  pub registers : t.gpr ≡ s.gpr
  pub memory : t.pmem ≡ s.pmem

-- After a refused jump, there is nothing to check.
abbrev without : Bool → Prev → Prev
without b prev = if b then record prev { prev_type = cfi_none; prev_is_cfi = false } else prev

-- What is kept for the next fetch.
abbrev pub kept : ℕ → Prev → Machine → Prev
kept cause prev s = without (is_jump_fault cause s) prev

not_satp : (cause : ℕ) (s : Machine) → (Csr.satp == tval_reg cause s) ≡ false
unfolding tval_reg
not_satp cause s = ground arith

-- With a legal satp and in a mode other than the reserved one, an exception is taken at the level that
-- delegation chooses: it is reported at the instruction that left, or, where DASICS refused a jump, at the
-- instruction that made the jump, and in that case nothing is left to check for the next fetch.
pub handle_exception-Taken :
    (cause pc : ℕ) (prev : Prev) (s : Machine)
    → SatpIsLegal s
    → s.mode < 4
    → s.mode ≢ mode_h
    → (t : Machine) × (handle_exception cause pc prev s ≡ ok (kept cause prev s) t)
      × Taken cause (reported_at cause pc prev s) s t
unfolding handle_exception
handle_exception-Taken cause pc prev s legal m h =
    let e = raise_intr-Enters cause (reported_at cause pc prev s) s legal m h in
    (
      record e.after { pc = get_trap_pc (s.csr_array (level_of cause s).tvec) cause; amo = false },
      rw e.returns refl,
      record {
        mode = e.mode;
        reported = e.epc;
        causes = e.cause;
        goes_on = refl;
        no_amo = refl;
        registers = e.registers;
        memory = e.memory;
      },
    )

module _ (other : ExecId → Decode → M (Unit {0})) (prev : Prev) (s : Machine)
    (marked : prev.prev_is_cfi ≡ true) (on : is_open_fetch s ≡ false)
    (refused : ¬ (Permitted s.pc prev.prev_pc s prev.prev_type)) where
  abbrev after_fault : Machine
  after_fault = Ldst.faulted s.pc dfr_jf s

  not_fetched :
      dasics_fetch_helper s.pc prev.prev_pc prev.prev_type s ≡ raised (dasics_cause s) after_fault
  not_fetched = elim (dasics_fetch_helper-FetchVerdict s.pc prev.prev_pc prev.prev_type s on) [
    | passes p e ↦ absurd (refused p)
    | faults n e ↦ e
  ]

  faults_at_once : execute_one other prev s ≡ faulted (dasics_cause s) s.pc prev after_fault
  unfolding execute_one isa_fetch_decode exec_decoded
  faults_at_once = rw (marked, not_fetched) refl

  is_reported : is_jump_fault (dasics_cause s) after_fault ≡ true
  is_reported = ground arith

  still_legal : SatpIsLegal s → SatpIsLegal after_fault
  still_legal legal = rw (not_satp (dasics_cause s) s) legal

  at_jump :
      (t : Machine)
      → Taken (dasics_cause s) (reported_at (dasics_cause s) s.pc prev after_fault) after_fault t
      → Taken (dasics_cause s) prev.prev_pc after_fault t
  at_jump t taken = record {
    mode = taken.mode;
    reported = taken.reported ∙ ap (λ (b : Bool). if b then prev.prev_pc else s.pc) is_reported;
    causes = taken.causes;
    goes_on = taken.goes_on;
    no_amo = taken.no_amo;
    registers = taken.registers;
    memory = taken.memory;
  }

  -- A transfer that DASICS refuses, with the check on: nothing of the target is fetched or executed, and the
  -- exception is reported at the instruction that made the transfer; then nothing is left to check.
  pub execute_one-Taken :
      SatpIsLegal s
      → s.mode < 4
      → s.mode ≢ mode_h
      → (t : Machine) × (execute_one other prev s ≡ faulted (dasics_cause s) s.pc prev after_fault)
        × (handle (some (dasics_cause s, s.pc)) prev after_fault
            ≡ ok (record prev { prev_type = cfi_none; prev_is_cfi = false }) t)
        × Taken (dasics_cause s) prev.prev_pc after_fault t
  unfolding handle
  execute_one-Taken legal m h =
      let (t, e, taken) =
        handle_exception-Taken (dasics_cause s) s.pc prev after_fault (still_legal legal) m h in
      (t, faults_at_once, e ∙ ap (λ (b : Bool). ok (without b prev) t) is_reported, at_jump t taken)
