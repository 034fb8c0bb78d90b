-- ===== src/Dasics/Ldst.antt =====
-- The check of loads and stores from untrusted code, byte by byte.
use native.Mathlib.Decide.{ℕ_discrete as dec_eq}
use mathlib.Core.Path.{subst}
use nemu.Base.{sym, ℕ, zero, suc, ◌+◌, ◌≤◌, ◌<◌, ◌≡◌, refl, inl, inr, ◌⊎◌, arith, Bool, true}
use nemu.Base.{false, u64, Bool-cases, if◌then◌else◌, ◌==◌}
use nemu.Machine.{Machine, Outcome, ok, raised, set_csr, truth, mode_u}
use nemu.Machine.Csr
use nemu.Machine.Csr.Dsmcfg
use nemu.Trap.{tval_reg, set_tval}
use nemu.Machine.{MemType, read, write}
use nemu.Dasics.{ldst_loop, dasics_fault, dasics_ldst_helper, dasics_match_dlib}
use nemu.Dasics.{dasics_in_trusted_zone, dfr_lf, dfr_sf}
use nemu.Dasics.Bounds.{Access, load, store, cfg_of, LibCovers, dasics_match_dlib_iff}

-- The cause of a DASICS fault in the current mode.
abbrev pub dasics_cause : Machine → ℕ
dasics_cause s = if s.mode == mode_u then Csr.ex_ducf else Csr.ex_dscf

abbrev pub reason_of : Access → ℕ
reason_of load = dfr_lf
reason_of store = dfr_sf

abbrev pub mem_type : Access → MemType
mem_type load = read
mem_type store = write

-- Whether dsmcfg switches the check off for this access in the current mode.
abbrev pub is_closed : Access → Machine → Bool
is_closed load s = truth (
    if s.mode == mode_u
    then Dsmcfg.cult (s.csr_array Csr.dsmcfg)
    else Dsmcfg.cslt (s.csr_array Csr.dsmcfg))
is_closed store s = truth (
    if s.mode == mode_u
    then Dsmcfg.cust (s.csr_array Csr.dsmcfg)
    else Dsmcfg.csst (s.csr_array Csr.dsmcfg))

-- The state after a fault at `addr`: the address and the reason are recorded, nothing else changes.
abbrev pub faulted : ℕ → ℕ → Machine → Machine
faulted addr reason s = set_csr Csr.dfreason reason (set_csr (tval_reg (dasics_cause s) s) addr s)

-- The verdict on the bytes from `i` to `hi` of an access: all of them are covered and nothing
-- happens, or the first that is not is reported.
pub data Verdict (a : Access) (vaddr i hi : ℕ) (s : Machine) (r : Outcome (Unit {0})) : Type 0 where
  passes :
      ((k : ℕ) → i ≤ k → k < hi → LibCovers a (u64 (vaddr + k)) s)
      → r ≡ ok tt s
      → Verdict a vaddr i hi s r
  faults :
      (k : ℕ)
      → i ≤ k
      → k < hi
      → ((j : ℕ) → i ≤ j → j < k → LibCovers a (u64 (vaddr + j)) s)
      → ¬ (LibCovers a (u64 (vaddr + k)) s)
      → r ≡ raised (dasics_cause s) (faulted (u64 (vaddr + k)) (reason_of a) s)
      → Verdict a vaddr i hi s r

recast :
    {a : Access} {vaddr i hi hi' : ℕ} {s : Machine} {r : Outcome (Unit {0})}
    → hi ≡ hi'
    → Verdict a vaddr i hi s r
    → Verdict a vaddr i hi' s r
recast {a} {vaddr} {i} {s = s} {r = r} e v = subst (λ h. Verdict a vaddr i h s r) e v

one_more :
    (a : Access) (vaddr i hi : ℕ) (s : Machine) {r : Outcome (Unit {0})}
    → LibCovers a (u64 (vaddr + i)) s
    → Verdict a vaddr (i + 1) hi s r
    → Verdict a vaddr i hi s r
one_more a vaddr i hi s c (passes all e) =
    passes (λ k lo up. elim (dec_eq i k) [ yes p ↦ rw (sym p) c | no p ↦ all k (omega arith) up ]) e
one_more a vaddr i hi s c (faults k lo up before not_k e) =
    faults k (omega arith) up
      (λ j lo' up'. elim (dec_eq i j) [ yes p ↦ rw (sym p) c | no p ↦ before j (omega arith) up' ])
      not_k e

ldst_loop-Verdict :
    (a : Access) (vaddr left i : ℕ) (s : Machine)
    → Verdict a vaddr i (i + left) s (ldst_loop left i vaddr (cfg_of a) (reason_of a) false s)
unfolding ldst_loop dasics_fault set_tval
ldst_loop-Verdict a vaddr zero i s = passes (λ k lo hi. absurd (omega arith)) refl
ldst_loop-Verdict a vaddr (suc left) i s =
    elim (Bool-cases (dasics_match_dlib (u64 (vaddr + i)) (cfg_of a) s)) [
      | inl y ↦
          let next =
            one_more a vaddr i (i + 1 + left) s ((dasics_match_dlib_iff a (u64 (vaddr + i)) s).0 y)
              (ldst_loop-Verdict a vaddr left (i + 1) s) in
          rw y (recast (omega arith) next)
      | inr n ↦ rw n (
          faults i (omega arith) (omega arith) (λ j lo hi. absurd (omega arith))
            (λ c. cc ((dasics_match_dlib_iff a (u64 (vaddr + i)) s).1 c)) refl)
    ]

-- From an untrusted pc, with the check on: either each byte of the access, wrapped at 2 ^ 64, lies in
-- a valid bound with the permission and the access goes on, or a DASICS fault of the current mode
-- reports the first byte that does not.
pub dasics_ldst_helper-Verdict :
    (a : Access) (pc vaddr len : ℕ) (s : Machine)
    → dasics_in_trusted_zone pc s ≡ false
    → is_closed a s ≡ false
    → Verdict a vaddr 0 len s (dasics_ldst_helper pc vaddr len (mem_type a) s)
unfolding dasics_ldst_helper
dasics_ldst_helper-Verdict load pc vaddr len s u c =
    rw (u, c) (recast (omega arith) (ldst_loop-Verdict load vaddr len 0 s))
dasics_ldst_helper-Verdict store pc vaddr len s u c =
    rw (u, c) (recast (omega arith) (ldst_loop-Verdict store vaddr len 0 s))

closed_loop :
    (left i vaddr cfg reason : ℕ) (s : Machine) → ldst_loop left i vaddr cfg reason true s ≡ ok tt s
unfolding ldst_loop
closed_loop zero i vaddr cfg reason s = refl
closed_loop (suc left) i vaddr cfg reason s = closed_loop left (i + 1) vaddr cfg reason s

-- From a trusted pc, or with the check switched off, every access goes on and changes nothing.
pub dasics_ldst_helper-ok :
    (a : Access) (pc vaddr len : ℕ) (s : Machine)
    → (dasics_in_trusted_zone pc s ≡ true) ⊎ (is_closed a s ≡ true)
    → dasics_ldst_helper pc vaddr len (mem_type a) s ≡ ok tt s
unfolding dasics_ldst_helper
dasics_ldst_helper-ok load pc vaddr len s (inl t) = rw t
dasics_ldst_helper-ok store pc vaddr len s (inl t) = rw t
dasics_ldst_helper-ok load pc vaddr len s (inr c) = rw (c, closed_loop) (ground arith)
dasics_ldst_helper-ok store pc vaddr len s (inr c) = rw (c, closed_loop) (ground arith)
