-- ===== src/Rva/Atomic.antt =====
-- Atomic operations and reservations, without translation.
use nemu.Base.{ℕ, ◌/◌, ◌≡◌, ◌≢◌, refl, ap, ◌∙◌, arith, ◌==◌, ==_iff}
use nemu.Base.{◌⊎◌, Bool, true, false, not, Bool-cases, inl, inr, u64, none, some}
use nemu.Machine.{Machine, ok, read, write, ◌>>=◌, assert}
use nemu.Trap.{mmu_direct, mmu_dynamic}
use nemu.Memory.Host.{load_bytes, store_bytes}
use nemu.Mmu.{isa_mmu_check}
use nemu.Vaddr.{resolve_mmu_mode}
use nemu.Vaddr.Direct.{
  Permitted, moved, vaddr_read-Permitted, vaddr_write-Permitted, Permitted-moved,
}
use nemu.Rvi.{reg, sext_len}
use nemu.Rvi.Memory.{after_write, write_reg_lem, rtl_lms-Permitted, rtl_sm-Permitted}
use nemu.Rva.{
  amo_value, lr, sc, sc_succeeds, check_failed_store, store_result, amo, amo_slow_path, width_of,
}

-- The value that an atomic operation finds in memory.
abbrev pub found : ℕ → ℕ → Machine → ℕ
found width rs1 s = sext_len width (load_bytes width s.pmem (u64 (reg rs1 s)))

module _ (pc width rd rs1 : ℕ) (s : Machine) where
  abbrev flagged : Machine
  flagged = record s { amo = true }

  stored :
      (old value : ℕ)
      → Permitted pc (u64 (reg rs1 s)) width write mmu_dynamic flagged
      → store_result pc width rd rs1 old (some value) flagged
        ≡ ok tt (record s {
          pmem = store_bytes width s.pmem (u64 (reg rs1 s)) value;
          gpr = after_write rd old s.gpr;
          amo = false;
        })
  unfolding store_result
  stored old value p =
      rw
        (
          vaddr_write-Permitted pc (u64 (reg rs1 s)) width value mmu_dynamic flagged p,
          write_reg_lem rd old
              (record flagged { pmem = store_bytes width s.pmem (u64 (reg rs1 s)) value }),
        )
        refl

  amo_lem :
      (funct5 rs2 value : ℕ)
      → Permitted pc (u64 (reg rs1 s)) width read mmu_dynamic s
      → Permitted pc (u64 (reg rs1 s)) width write mmu_dynamic s
      → amo_value funct5 width (found width rs1 s) (reg rs2 s) ≡ some value
      → amo pc funct5 width rd rs1 rs2 s
        ≡ ok tt (record s {
          pmem = store_bytes width s.pmem (u64 (reg rs1 s)) value;
          gpr = after_write rd (found width rs1 s) s.gpr;
          amo = false;
        })
  unfolding amo
  amo_lem funct5 rs2 value r w e =
      rw
        (
          vaddr_read-Permitted pc (u64 (reg rs1 s)) width mmu_dynamic flagged (
              Permitted-moved s.pmem s.gpr s.lr_addr s.lr_valid true s pc (u64 (reg rs1 s)) width
                read mmu_dynamic r),
          e,
        )
        (stored (found width rs1 s) value (
          Permitted-moved s.pmem s.gpr s.lr_addr s.lr_valid true s pc (u64 (reg rs1 s)) width write
            mmu_dynamic w))

no_value_2 : (width a b value : ℕ) → amo_value 2 width a b ≢ some value
unfolding amo_value
no_value_2 width a b value e = absurd (ended e)
  where
    ended : {B : Type 0} → none ≡ some value → B
    ended h = cc

no_value_3 : (width a b value : ℕ) → amo_value 3 width a b ≢ some value
unfolding amo_value
no_value_3 width a b value e = absurd (ended e)
  where
    ended : {B : Type 0} → none ≡ some value → B
    ended h = cc

no_value :
    (funct5 width a b value : ℕ)
    → (funct5 ≡ 2) ⊎ (funct5 ≡ 3)
    → amo_value funct5 width a b ≢ some value
no_value funct5 width a b value (inl e) h = no_value_2 width a b value (rw e at h)
no_value funct5 width a b value (inr e) h = no_value_3 width a b value (rw e at h)

-- An atomic operation on memory that permits a load and a store: memory receives the result of the
-- operation on the value found there and the second operand, the destination the value found, and the
-- flag of atomic accesses is off again.
pub amo_slow_path-Swaps :
    (pc funct7 funct3 rd rs1 rs2 value : ℕ) (s : Machine)
    → Permitted pc (u64 (reg rs1 s)) (width_of funct3) read mmu_dynamic s
    → Permitted pc (u64 (reg rs1 s)) (width_of funct3) write mmu_dynamic s
    → amo_value (funct7 / 4) (width_of funct3) (found (width_of funct3) rs1 s) (reg rs2 s)
      ≡ some value
    → amo_slow_path pc funct7 funct3 rd rs1 rs2 s
      ≡ ok tt (record s {
        pmem = store_bytes (width_of funct3) s.pmem (u64 (reg rs1 s)) value;
        gpr = after_write rd (found (width_of funct3) rs1 s) s.gpr;
        amo = false;
      })
unfolding amo_slow_path
amo_slow_path-Swaps pc funct7 funct3 rd rs1 rs2 value s r w e =
    elim (Bool-cases (funct7 / 4 == 2)) [
      | inl y ↦ absurd (no_value _ _ _ _ value (inl ((==_iff _ 2).0 y)) e)
      | inr n ↦ elim (Bool-cases (funct7 / 4 == 3)) [
        | inl y ↦ absurd (no_value _ _ _ _ value (inr ((==_iff _ 3).0 y)) e)
        | inr n' ↦ rw (n, n') (amo_lem pc (width_of funct3) rd rs1 s (funct7 / 4) rs2 value r w e)
      ]
    ]

asserted : (b : Bool) (s : Machine) → b ≡ false → assert (not b) s ≡ ok tt s
asserted b s e = rw e refl

-- A load with reservation, outside an atomic operation and where memory permits the load: the
-- destination receives the value, and the reservation is at what the address register holds after
-- that.
pub lr-Reserves :
    (pc width rd rs1 : ℕ) (s : Machine)
    → s.amo ≡ false
    → Permitted pc (u64 (reg rs1 s)) width read mmu_dynamic s
    → lr pc width rd rs1 s
      ≡ ok tt (record s {
        gpr = after_write rd (found width rs1 s) s.gpr;
        lr_addr = after_write rd (found width rs1 s) s.gpr rs1;
        lr_valid = 1;
      })
unfolding lr
lr-Reserves pc width rd rs1 s a r =
    rw
      (
        asserted s.amo s a,
        rtl_lms-Permitted pc rd rs1 0 width mmu_dynamic (u64 (reg rs1 s)) s (omega arith) r,
      )
      refl

sc_at :
    (pc width rd rs1 rs2 base : ℕ) (s : Machine)
    → reg rs1 s ≡ base
    → sc_succeeds rs1 s ≡ true
    → Permitted pc (u64 base) width write mmu_dynamic s
    → sc pc width rd rs1 rs2 s
      ≡ ok tt (record s {
        pmem = store_bytes width s.pmem (u64 base) (reg rs2 s);
        gpr = after_write rd 0 s.gpr;
        lr_valid = 0;
      })
unfolding sc
sc_at pc width rd rs1 rs2 base s e y w =
    rw
      (
        y,
        rtl_sm-Permitted pc rs2 rs1 0 width mmu_dynamic (u64 base) s (omega (arith, e)) w,
        write_reg_lem rd 0 (record s { pmem = mem; lr_valid = 0 }),
      )
      refl
  where
    mem : ℕ → ℕ
    mem = store_bytes width s.pmem (u64 base) (reg rs2 s)

-- A store under a reservation of its address, where memory permits it: memory receives the second
-- operand, the destination zero, and the reservation is gone.
pub sc-Stores :
    (pc width rd rs1 rs2 : ℕ) (s : Machine)
    → sc_succeeds rs1 s ≡ true
    → Permitted pc (u64 (reg rs1 s)) width write mmu_dynamic s
    → sc pc width rd rs1 rs2 s
      ≡ ok tt (record s {
        pmem = store_bytes width s.pmem (u64 (reg rs1 s)) (reg rs2 s);
        gpr = after_write rd 0 s.gpr;
        lr_valid = 0;
      })
sc-Stores pc width rd rs1 rs2 s = sc_at pc width rd rs1 rs2 (reg rs1 s) s refl

direct_check :
    (addr width : ℕ) (s : Machine)
    → resolve_mmu_mode addr width write mmu_dynamic s ≡ ok mmu_direct s
    → isa_mmu_check addr width write s ≡ ok mmu_direct s
unfolding resolve_mmu_mode
direct_check addr width s h = h

-- A store without a reservation of its address, where memory permits the store: the destination
-- receives one, and neither memory nor the reservation changes.
pub sc-Refuses :
    (pc width rd rs1 rs2 : ℕ) (s : Machine)
    → sc_succeeds rs1 s ≡ false
    → Permitted pc (reg rs1 s) width write mmu_dynamic s
    → sc pc width rd rs1 rs2 s ≡ ok tt (record s { gpr = after_write rd 1 s.gpr })
unfolding sc check_failed_store
sc-Refuses pc width rd rs1 rs2 s n w =
    rw (n, direct_check (reg rs1 s) width s w.direct, w.memory, w.pmp) (write_reg_lem rd 1 s)

reserved :
    (rs1 : ℕ) (s : Machine) → s.lr_addr ≡ reg rs1 s → s.lr_valid ≡ 1 → sc_succeeds rs1 s ≡ true
unfolding sc_succeeds
reserved rs1 s a v = ground (arith, a, v)

kept : (rd v rs1 : ℕ) (gpr : ℕ → ℕ) → rs1 ≢ rd → after_write rd v gpr rs1 ≡ gpr rs1
kept rd v rs1 gpr ne = ground arith

-- A load with reservation into another register than that of the address, and at once the store, where no
-- atomic operation is under way and both accesses go straight to memory: DASICS and PMP permit them, they are
-- of 1, 2, 4 or 8 bytes and not translated, and the address is in memory. The store succeeds, and what it
-- writes is what the second operand holds after the load.
pub lr-sc :
    (pc pc' width rd rd' rs1 rs2 : ℕ) (s : Machine)
    → s.amo ≡ false
    → rs1 ≢ rd
    → Permitted pc (u64 (reg rs1 s)) width read mmu_dynamic s
    → Permitted pc' (u64 (reg rs1 s)) width write mmu_dynamic s
    → (lr pc width rd rs1 >>= λ _. sc pc' width rd' rs1 rs2) s
      ≡ ok tt (record s {
        pmem =
            store_bytes width s.pmem
              (u64 (reg rs1 s))
              (after_write rd (found width rs1 s) s.gpr rs2);
        gpr = after_write rd' 0 (after_write rd (found width rs1 s) s.gpr);
        lr_addr = reg rs1 s;
        lr_valid = 0;
      })
lr-sc pc pc' width rd rd' rs1 rs2 s a ne r w = rw (lr-Reserves pc width rd rs1 s a r) (
    sc_at pc' width rd' rs1 rs2 (reg rs1 s) after held (reserved rs1 after refl refl) (
      Permitted-moved s.pmem gpr (gpr rs1) 1 s.amo s pc' (u64 (reg rs1 s)) width write mmu_dynamic
        w)
    ∙ ap
        (λ (a : ℕ). ok tt (record s {
          pmem = store_bytes width s.pmem (u64 (reg rs1 s)) (gpr rs2);
          gpr = after_write rd' 0 gpr;
          lr_addr = a;
          lr_valid = 0;
        }))
        held)
  where
    gpr : ℕ → ℕ
    gpr = after_write rd (found width rs1 s) s.gpr

    after : Machine
    after = moved s.pmem gpr (gpr rs1) 1 s.amo s

    held : gpr rs1 ≡ reg rs1 s
    held = kept rd (found width rs1 s) rs1 s.gpr ne
