-- ===== src/Cpu/Steps.antt =====
-- The execution of single instructions and of batches.
use nemu.Base.{ℕ, zero, suc, ◌+◌, ◌≡◌, refl, sym, ◌∙◌, ap, arith, false, if◌then◌else◌}
use nemu.Base.{Option, some, field, u64}
use nemu.Machine.{Machine, M, Outcome, ok}
use nemu.Dasics.{CfiType, cfi_none, cfi_branch}
use nemu.Rvi.{reg, rtl_reg, rtl_jrelop, rtl_j}
use nemu.Rvi.Ops.{Relop, interpret_relop}
use nemu.Rvi.Decode.{funct3, funct7, rd, rs1, rs2, offset_b}
use nemu.Rvi.Memory.{after_write, write_reg_lem}
use nemu.Instr.{Decode, Found}
use nemu.Instr.Ids.{ExecId}
use nemu.Instr.Main.{main}
use nemu.Instr.Exec.{exec, exec_found}
use nemu.Instr.Alu.{Alu}
use nemu.Instr.Op.{main-Alu}
use nemu.Instr.Branches.{Condition, main-Condition}
use nemu.Cpu.{
  Prev, Ran, done, faulted, stopped, fetch, to_decode, after, decode_table, chosen, is_cfi,
  isa_fetch_decode, exec_decoded, finish, execute_one, execute, utimer_tick,
}
use nemu.Cpu.Transfers.{Finds, main-Condition_mark}
use nemu.Cpu.Operations.{main-Alu_mark}

-- What is left after an instruction at `pc`.
abbrev pub left_by : ℕ → CfiType → Prev
left_by pc t = record { prev_pc = pc; prev_type = t; prev_is_cfi = is_cfi t }

-- An instruction of 32 bits that is fetched, found and executed.
module _ (other : ExecId → Decode → M (Unit {0})) (prev : Prev) (s : Machine) (w snpc : ℕ)
    (plain : prev.prev_is_cfi ≡ false) (fetched : fetch s.pc s ≡ ok (w, snpc) s)
    (long : field w 0 2 ≡ 3) where
  abbrev decoded : Decode
  decoded = to_decode s.pc (w, snpc) s

  execute_one_lem :
      {t : CfiType} (u : Machine)
      → Finds decoded t
      → exec_found other decoded (main decoded) (record s { pc = snpc }) ≡ ok tt u
      → execute_one other prev s ≡ done (left_by s.pc t) (utimer_tick u)
  unfolding execute_one isa_fetch_decode decode_table chosen exec_decoded exec_found finish
  execute_one_lem u (f, e, m) x =
      rw (plain, fetched, long, e)
        (ap (λ (r : Outcome (Unit {0})). finish other s.pc (after s.pc f.id) r) (runs f e x)
          ∙ ap (λ (k : CfiType). done (left_by s.pc k) (utimer_tick u)) m)
    where
      runs :
          (f : Found)
          → main decoded ≡ some f
          → exec_found other decoded (main decoded) (record s { pc = snpc }) ≡ ok tt u
          → exec other f.id (record decoded { operands = f.operands }) (record s { pc = snpc })
            ≡ ok tt u
      runs f e x =
          ap (λ (o : Option Found). exec_found other decoded o (record s { pc = snpc })) (sym e) ∙ x

  -- An instruction on two registers, where the instruction before was no transfer: the destination receives
  -- the result of the operation, the program counter goes to the next instruction, and the next fetch has
  -- nothing to check.
  pub execute_one-Alu :
      {f : ℕ → ℕ → ℕ}
      → Alu (field w 2 5) (funct3 w) (funct7 w) f
      → execute_one other prev s
        ≡ done (left_by s.pc cfi_none) (
            utimer_tick (record s {
              pc = snpc;
              gpr = after_write (rd w) (f (reg (rs1 w) s) (reg (rs2 w) s)) s.gpr;
            }))
  unfolding rtl_reg
  execute_one-Alu {f} a = execute_one_lem _ (main-Alu_mark decoded a) (
      main-Alu other decoded (record s { pc = snpc }) a
      ∙ write_reg_lem (rd w) (f (reg (rs1 w) s) (reg (rs2 w) s)) (record s { pc = snpc }))

  -- A branch, where the instruction before was no transfer: only the program counter changes, to the target or
  -- to the next instruction by the condition, and the next fetch is checked as the target of a branch.
  pub execute_one-Condition :
      {r : Relop}
      → field w 2 5 ≡ 0x18
      → Condition (funct3 w) r
      → execute_one other prev s
        ≡ done (left_by s.pc cfi_branch) (
            utimer_tick (record s {
              pc =
                  if interpret_relop r (reg (rs1 w) s) (reg (rs2 w) s)
                  then u64 (s.pc + offset_b w)
                  else snpc;
            }))
  unfolding rtl_jrelop rtl_j
  execute_one-Condition c a =
      execute_one_lem _ (main-Condition_mark decoded c refl a)
        (main-Condition other decoded (record s { pc = snpc }) c a)

-- What follows the end of some instructions: `n` more, where they were done.
unfoldable pub resume : (ExecId → Decode → M (Unit {0})) → ℕ → Ran → Ran
resume other n (done prev s) = execute other n prev s
resume other n (faulted cause pc prev s) = faulted cause pc prev s
resume other n stopped = stopped

-- The instructions of a batch run one after another: a batch of `m + n` instructions is one of `m` and, where
-- it was done, one of `n` that goes on from its end; where it was not, its end is the end of the whole.
pub execute-add :
    (other : ExecId → Decode → M (Unit {0})) (m n : ℕ) (prev : Prev) (s : Machine)
    → execute other (m + n) prev s ≡ resume other n (execute other m prev s)
unfolding execute resume
execute-add other zero n prev s = ap (λ (k : ℕ). execute other k prev s) at
  where
    at : 0 + n ≡ n
    at = omega arith
execute-add other (suc m) n prev s =
    ap (λ (k : ℕ). execute other k prev s) at
    ∙ go (execute_one other prev s) (execute-add other m n)
  where
    at : suc m + n ≡ suc (m + n)
    at = omega arith

    go :
        (r : Ran)
        → ((p : Prev) (t : Machine)
            → execute other (m + n) p t ≡ resume other n (execute other m p t))
        → resume other (m + n) r ≡ resume other n (resume other m r)
    go (done p t) ih = ih p t
    go (faulted cause pc p t) ih = refl
    go stopped ih = refl
