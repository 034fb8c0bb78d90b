-- ===== src/Cpu/Loop.antt =====
-- The loop of cpu_exec (cpu/cpu-exec.c): exceptions and interrupts are taken between batches of instructions.
-- `device_update` is the work of the devices between two batches. Taking a trap never leaves with an exception itself; where it did, the model would end.
use nemu.Base.{ℕ, ◌-◌, Bool, false, ◌&&◌, ◌||◌, ◌==◌, ◌!=◌, if◌then◌else◌}
use nemu.Base.{Option, none, some, min}
use nemu.Machine.{Machine, M, Outcome, ok, raised, panicked, pure, when, ◌>>=◌, ◌>>◌}
use nemu.Machine.Csr
use nemu.Trap.{raise_intr, isa_query_intr, intr_empty}
use nemu.Dasics.{cfi_none, dfr_jf}
use nemu.Instr.{Decode}
use nemu.Instr.Ids.{ExecId}
use nemu.Cpu.{Prev, Ran, done, faulted, stopped, execute}

-- What cpu_exec keeps between two batches: the exception that ended the last one, with the address of the
-- instruction that left, and the instructions to go.
pub record Loop : Type 0 where
  pub cause : Option (ℕ × ℕ)
  pub prev : Prev
  pub n_remain_total : ℕ

abbrev pub batch_size : ℕ
batch_size = 65536

-- A jump that DASICS refused is reported at the instruction that made it.
abbrev pub is_jump_fault : ℕ → Machine → Bool
is_jump_fault cause s =
    ((cause == Csr.ex_ducf) || (cause == Csr.ex_dscf)) && (s.csr_array Csr.dfreason == dfr_jf)

abbrev pub go_on_at : ℕ → M (Unit {0})
go_on_at pc s = ok tt (record s { pc = pc })

unfoldable pub handle_exception : ℕ → ℕ → Prev → M Prev
handle_exception cause pc prev s =
    let jump_fault = is_jump_fault cause s in
    (do
      target ← raise_intr cause (if jump_fault then prev.prev_pc else pc)
      go_on_at target
      (λ t. ok tt (record t { amo = false }))
      pure (if jump_fault then record prev { prev_type = cfi_none; prev_is_cfi = false } else prev))
      s

unfoldable pub handle_interrupt : Prev → M Prev
handle_interrupt prev s =
    let intr = isa_query_intr s in
    (do when (intr != intr_empty) (raise_intr intr s.pc >>= go_on_at); pure prev) s

unfoldable pub handle : Option (ℕ × ℕ) → Prev → M Prev
handle (some (cause, pc)) prev = handle_exception cause pc prev
handle none prev = handle_interrupt prev

-- How a round of the loop ends.
pub data Round : Type 0 where
  continues : Loop → Machine → Round
  ends : Round

module _ (other : ExecId → Decode → M (Unit {0})) (device_update : Machine → Machine) where
  -- After a batch: an exception is left for the next round, and only a whole batch is counted.
  unfoldable pub after_batch : ℕ → ℕ → Ran → Round
  after_batch total batch (done prev s) =
      continues (record { cause = none; prev = prev; n_remain_total = total - batch }) s
  after_batch total batch (faulted cause pc prev s) =
      continues (record { cause = some (cause, pc); prev = prev; n_remain_total = total }) s
  after_batch total batch stopped = ends

  unfoldable pub run_batch : ℕ → Outcome Prev → Round
  run_batch total (ok prev s) =
      let batch = min total batch_size in after_batch total batch (execute other batch prev s)
  run_batch total (raised cause s) = ends
  run_batch total panicked = ends

  -- One round of the loop of cpu_exec, while instructions are left.
  unfoldable pub cpu_exec_round : Loop → Machine → Round
  cpu_exec_round l s = run_batch l.n_remain_total (handle l.cause l.prev (device_update s))
