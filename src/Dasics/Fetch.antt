-- ===== src/Dasics/Fetch.antt =====
-- The check of control transfers.
use native.Mathlib.Decide.{ℕ_discrete as dec_eq}
use nemu.Base.{ℕ, ◌≡◌, inl, inr, ◌⊎◌, arith, Bool, true}
use nemu.Base.{false, Bool-cases, if◌then◌else◌, ◌==◌}
use nemu.Machine.{Machine, Outcome, ok, raised, truth, mode_u}
use nemu.Machine.Csr
use nemu.Machine.Csr.Dsmcfg
use nemu.Trap.{set_tval}
use nemu.Dasics.{CfiType, cfi_none, cfi_branch, cfi_jump, dasics_fetch_helper, dasics_fault}
use nemu.Dasics.{dasics_in_trusted_zone, dasics_match_djumpbound, jumpcfg_v, dfr_jf}
use nemu.Dasics.Jumps.{InFreeZone, dasics_match_djumpbound_iff}
use nemu.Dasics.Ldst.{dasics_cause, faulted}

-- The transfers that DASICS permits from `prev_pc` to `pc`.
pub data Permitted (pc prev_pc : ℕ) (s : Machine) : CfiType → Type 0 where
  trusted_branch : dasics_in_trusted_zone prev_pc s ≡ true → Permitted pc prev_pc s cfi_branch
  trusted_jump : dasics_in_trusted_zone prev_pc s ≡ true → Permitted pc prev_pc s cfi_jump
  branch_into_free : InFreeZone pc s → Permitted pc prev_pc s cfi_branch
  jump_into_free : InFreeZone pc s → Permitted pc prev_pc s cfi_jump
  return_to_main :
      dasics_in_trusted_zone prev_pc s ≡ false
      → dasics_in_trusted_zone pc s ≡ true
      → (pc ≡ s.csr_array Csr.dretpc) ⊎ (pc ≡ s.csr_array Csr.dmaincall)
      → Permitted pc prev_pc s cfi_jump
  return_from_free :
      InFreeZone prev_pc s
      → dasics_in_trusted_zone pc s ≡ false
      → ¬ (InFreeZone pc s)
      → pc ≡ s.csr_array Csr.dretpcfz
      → Permitted pc prev_pc s cfi_jump

-- Whether dsmcfg switches the check off in the current mode.
abbrev pub is_open_fetch : Machine → Bool
is_open_fetch s = truth (
    if s.mode == mode_u
    then Dsmcfg.cuft (s.csr_array Csr.dsmcfg)
    else Dsmcfg.csft (s.csr_array Csr.dsmcfg))

module _ (pc prev_pc : ℕ) (s : Machine) (on : is_open_fetch s ≡ false) where
  -- A permitted transfer goes on and changes nothing.
  pub dasics_fetch_helper-ok :
      {t : CfiType} → Permitted pc prev_pc s t → dasics_fetch_helper pc prev_pc t s ≡ ok tt s
  unfolding dasics_fetch_helper
  dasics_fetch_helper-ok (trusted_branch p) = rw p
  dasics_fetch_helper-ok (trusted_jump p) = rw p
  dasics_fetch_helper-ok (branch_into_free f) =
      ground (arith, (dasics_match_djumpbound_iff pc s).1 f)
  dasics_fetch_helper-ok (jump_into_free f) = ground (arith, (dasics_match_djumpbound_iff pc s).1 f)
  dasics_fetch_helper-ok (return_to_main p q e) = ground arith
  dasics_fetch_helper-ok (return_from_free f u n e) = ground (
    arith,
    (dasics_match_djumpbound_iff prev_pc s).1 f,
    λ (h : dasics_match_djumpbound pc jumpcfg_v s ≡ true).
        n ((dasics_match_djumpbound_iff pc s).0 h),
  )

-- The answer of the check: a permitted transfer goes on and changes nothing, any other is a DASICS
-- fault of the current mode that reports the target.
pub data FetchVerdict (pc prev_pc : ℕ) (t : CfiType) (s : Machine) (r : Outcome (Unit {0}))
    : Type 0 where
  passes : Permitted pc prev_pc s t → r ≡ ok tt s → FetchVerdict pc prev_pc t s r
  faults :
      ¬ (Permitted pc prev_pc s t)
      → r ≡ raised (dasics_cause s) (faulted pc dfr_jf s)
      → FetchVerdict pc prev_pc t s r

module _ (pc prev_pc : ℕ) (s : Machine) (on : is_open_fetch s ≡ false)
    (untrusted : dasics_in_trusted_zone prev_pc s ≡ false)
    (outside : dasics_match_djumpbound pc jumpcfg_v s ≡ false) where
  not_free : ¬ (InFreeZone pc s)
  not_free f = cc ((dasics_match_djumpbound_iff pc s).1 f)

  not_branch : ¬ (Permitted pc prev_pc s cfi_branch)
  not_branch (trusted_branch p) = cc
  not_branch (branch_into_free f) = not_free f

  refused_branch :
      FetchVerdict pc prev_pc cfi_branch s (dasics_fetch_helper pc prev_pc cfi_branch s)
  unfolding dasics_fetch_helper dasics_fault set_tval
  refused_branch = faults not_branch (ground arith)

  abbrev EntersMain : Type 0
  EntersMain =
      (dasics_in_trusted_zone pc s ≡ true)
      × ((pc ≡ s.csr_array Csr.dretpc) ⊎ (pc ≡ s.csr_array Csr.dmaincall))

  abbrev LeavesFree : Type 0
  LeavesFree =
      (dasics_match_djumpbound prev_pc jumpcfg_v s ≡ true)
      × (dasics_in_trusted_zone pc s ≡ false)
      × (pc ≡ s.csr_array Csr.dretpcfz)

  not_jump : ¬ EntersMain → ¬ LeavesFree → ¬ (Permitted pc prev_pc s cfi_jump)
  not_jump nm nf (trusted_jump p) = cc
  not_jump nm nf (jump_into_free f) = not_free f
  not_jump nm nf (return_to_main p q e) = nm (q, e)
  not_jump nm nf (return_from_free f u n e) = nf ((dasics_match_djumpbound_iff prev_pc s).1 f, u, e)

  into_trusted :
      dasics_in_trusted_zone pc s ≡ true
      → FetchVerdict pc prev_pc cfi_jump s (dasics_fetch_helper pc prev_pc cfi_jump s)
  unfolding dasics_fetch_helper dasics_fault set_tval
  into_trusted t = elim (dec_eq pc (s.csr_array Csr.dretpc)) [
    | yes e ↦ passes (return_to_main untrusted t (inl e)) (ground arith)
    | no n ↦ elim (dec_eq pc (s.csr_array Csr.dmaincall)) [
      | yes e ↦ passes (return_to_main untrusted t (inr e)) (ground arith)
      | no m ↦ faults (not_jump (λ h. ground (arith, h)) (λ h. ground (arith, h))) (ground arith)
    ]
  ]

  into_untrusted :
      dasics_in_trusted_zone pc s ≡ false
      → FetchVerdict pc prev_pc cfi_jump s (dasics_fetch_helper pc prev_pc cfi_jump s)
  unfolding dasics_fetch_helper dasics_fault set_tval
  into_untrusted u = elim (Bool-cases (dasics_match_djumpbound prev_pc jumpcfg_v s)) [
    | inl f ↦ elim (dec_eq pc (s.csr_array Csr.dretpcfz)) [
      | yes e ↦
          passes (return_from_free ((dasics_match_djumpbound_iff prev_pc s).0 f) u not_free e)
            (ground arith)
      | no m ↦ faults (not_jump (λ h. ground (arith, h)) (λ h. ground (arith, h))) (ground arith)
    ]
    | inr n ↦ faults (not_jump (λ h. ground (arith, h)) (λ h. ground (arith, h))) (ground arith)
  ]

not_none : {pc prev_pc : ℕ} {s : Machine} → ¬ (Permitted pc prev_pc s cfi_none)
not_none p = elim p [ ]

-- With the check on, a transfer goes on exactly when DASICS permits it.
pub dasics_fetch_helper-FetchVerdict :
    (pc prev_pc : ℕ) (t : CfiType) (s : Machine)
    → is_open_fetch s ≡ false
    → FetchVerdict pc prev_pc t s (dasics_fetch_helper pc prev_pc t s)
unfolding dasics_fetch_helper dasics_fault set_tval
dasics_fetch_helper-FetchVerdict pc prev_pc cfi_none s on = faults not_none (ground arith)
dasics_fetch_helper-FetchVerdict pc prev_pc cfi_branch s on =
    elim (Bool-cases (dasics_in_trusted_zone prev_pc s)) [
      | inl p ↦
          passes (trusted_branch p) (dasics_fetch_helper-ok pc prev_pc s on (trusted_branch p))
      | inr u ↦ elim (Bool-cases (dasics_match_djumpbound pc jumpcfg_v s)) [
        | inl f ↦
            let free = branch_into_free ((dasics_match_djumpbound_iff pc s).0 f) in
            passes free (dasics_fetch_helper-ok pc prev_pc s on free)
        | inr o ↦ refused_branch pc prev_pc s on u o
      ]
    ]
dasics_fetch_helper-FetchVerdict pc prev_pc cfi_jump s on =
    elim (Bool-cases (dasics_in_trusted_zone prev_pc s)) [
      | inl p ↦ passes (trusted_jump p) (dasics_fetch_helper-ok pc prev_pc s on (trusted_jump p))
      | inr u ↦ elim (Bool-cases (dasics_match_djumpbound pc jumpcfg_v s)) [
        | inl f ↦
            let free = jump_into_free ((dasics_match_djumpbound_iff pc s).0 f) in
            passes free (dasics_fetch_helper-ok pc prev_pc s on free)
        | inr o ↦ elim (Bool-cases (dasics_in_trusted_zone pc s)) [
          | inl t ↦ into_trusted pc prev_pc s on u o t
          | inr n ↦ into_untrusted pc prev_pc s on u o n
        ]
      ]
    ]
