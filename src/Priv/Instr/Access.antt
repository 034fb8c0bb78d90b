-- ===== src/Priv/Instr/Access.antt =====
-- Access to the control and status registers: what csrrw lets through.
use nemu.Base.{ℕ, ◌/◌, ◌%◌, ◌≤◌, ◌<◌, ◌≡◌, ◌≢◌, refl, inl, inr, ◌⊎◌, arith, Bool, true}
use nemu.Base.{false, ◌&&◌, ◌==◌, leb, Option, Bool-cases}
use nemu.Machine.{Machine, ok, raised, panicked, ◌>>=◌, ◌>>◌, pure}
use nemu.Machine.Csr
use nemu.Dasics.{dasics_in_trusted_zone}
use nemu.Priv.Read.{csr_decode, csr_is_legal}
use nemu.Priv.Instr.{csrrw, read_dest, write_src, is_some}

-- What the architecture and DASICS ask of an access: the register exists, the mode is privileged
-- enough, the code is trusted, and a register of the read-only range is only read.
pub record MayAccess (src : Option ℕ) (csrid pc : ℕ) (s : Machine) : Type 0 where
  pub exists : Csr.csr_exist csrid ≡ true
  pub privileged : csrid / 256 % 4 ≤ s.mode
  pub trusted : dasics_in_trusted_zone pc s ≡ true
  pub writable : (is_some src ≡ false) ⊎ (csrid / 1024 ≢ 3)

-- The four ways an access ends: it is carried out, it is illegal because the register does not exist
-- or because it is read-only, or, where privilege or trust is missing, it stops the emulator.
pub data Verdict (dest : Bool) (src : Option ℕ) (csrid pc : ℕ) (s : Machine) : Type 0 where
  granted :
      MayAccess src csrid pc s
      → csrrw dest src csrid pc s
        ≡ (read_dest dest (csr_decode csrid) >>= λ out.
              write_src src (csr_decode csrid) >> pure out)
            s
      → Verdict dest src csrid pc s
  missing :
      Csr.csr_exist csrid ≡ false
      → csrrw dest src csrid pc s ≡ raised Csr.ex_ii s
      → Verdict dest src csrid pc s
  denied :
      (s.mode < csrid / 256 % 4) ⊎ (dasics_in_trusted_zone pc s ≡ false)
      → csrrw dest src csrid pc s ≡ panicked
      → Verdict dest src csrid pc s
  read_only :
      (is_some src ≡ true) × (csrid / 1024 ≡ 3)
      → csrrw dest src csrid pc s ≡ raised Csr.ex_ii s
      → Verdict dest src csrid pc s

module _ (dest : Bool) (src : Option ℕ) (csrid pc : ℕ) (s : Machine) where
  granted_by :
      csr_is_legal csrid (is_some src) pc s ≡ ok true s
      → csrrw dest src csrid pc s
        ≡ (read_dest dest (csr_decode csrid) >>= λ out.
              write_src src (csr_decode csrid) >> pure out)
            s
  unfolding csrrw
  granted_by h = rw h refl

  refused_by :
      csr_is_legal csrid (is_some src) pc s ≡ ok false s
      → csrrw dest src csrid pc s ≡ raised Csr.ex_ii s
  unfolding csrrw
  refused_by h = rw h refl

  denied_by :
      csr_is_legal csrid (is_some src) pc s ≡ panicked → csrrw dest src csrid pc s ≡ panicked
  unfolding csrrw
  denied_by h = rw h refl

  may :
      Csr.csr_exist csrid ≡ true
      → (leb (csrid / 256 % 4) s.mode && dasics_in_trusted_zone pc s) ≡ true
      → (is_some src && (csrid / 1024 == 3)) ≡ false
      → MayAccess src csrid pc s
  may e right free = record {
    exists = e;
    privileged = ground arith;
    trusted = ground arith;
    writable = ground arith;
  }

  exists_case : Csr.csr_exist csrid ≡ true → Verdict dest src csrid pc s
  unfolding csr_is_legal
  exists_case e = elim (Bool-cases (leb (csrid / 256 % 4) s.mode && dasics_in_trusted_zone pc s)) [
    | inr no_right ↦ denied (ground arith) (denied_by (rw (e, no_right) refl))
    | inl right ↦ elim (Bool-cases (is_some src && (csrid / 1024 == 3))) [
      | inl ro ↦ read_only (ground arith) (refused_by (rw (e, right, ro) refl))
      | inr free ↦ granted (may e right free) (granted_by (rw (e, right, free) refl))
    ]
  ]

  -- Every access to a register ends in one of four ways: it is carried out, and then the register
  -- exists, the mode is privileged enough, the code is trusted and a read-only register is only
  -- read; it is illegal, since the register does not exist or is read-only; or it stops the
  -- emulator, since privilege or trust is missing.
  pub csrrw-Verdict : Verdict dest src csrid pc s
  unfolding csr_is_legal
  csrrw-Verdict = elim (Bool-cases (Csr.csr_exist csrid)) [
    | inl e ↦ exists_case e
    | inr ne ↦ missing ne (refused_by (rw ne refl))
  ]
