-- ===== src/Rvi/Memory.antt =====
-- Loads and stores of registers, without translation.
use nemu.Base.{ℕ, ◌+◌, ◌*◌, ◌%◌, ◌^◌, ◌≡◌, refl, ap, ◌∙◌, ◌==◌, if◌then◌else◌, Bool-cases}
use nemu.Base.{inl, inr, u64}
use nemu.Machine.{Machine, ok, read, write, update, ◌>>=◌}
use nemu.Memory.Host.{load_bytes, store_bytes, load_bytes-store_bytes}
use nemu.Vaddr.Direct.{Permitted, vaddr_read-Permitted, vaddr_write-Permitted, Permitted-moved}
use nemu.Rvi.{reg, write_reg, rtl_lms, rtl_sm, sext_len}

-- The register file after a write.
abbrev pub after_write : ℕ → ℕ → (ℕ → ℕ) → ℕ → ℕ
after_write rd v gpr = if rd == 0 then gpr else update gpr rd v

pub write_reg_lem :
    (rd v : ℕ) (s : Machine) → write_reg rd v s ≡ ok tt (record s { gpr = after_write rd v s.gpr })
unfolding write_reg
write_reg_lem rd v s = elim (Bool-cases (rd == 0)) [ inl y ↦ rw y refl | inr n ↦ rw n refl ]

-- The address is that of the register and the offset.
pub rtl_lms-Permitted :
    (pc rd rs1 offset len mmu_mode addr : ℕ) (s : Machine)
    → u64 (reg rs1 s + offset) ≡ addr
    → Permitted pc addr len read mmu_mode s
    → rtl_lms pc rd rs1 offset len mmu_mode s
      ≡ ok tt (record s { gpr = after_write rd (sext_len len (load_bytes len s.pmem addr)) s.gpr })
unfolding rtl_lms
rtl_lms-Permitted pc rd rs1 offset len mmu_mode addr s e p =
    rw (e, vaddr_read-Permitted pc addr len mmu_mode s p) (write_reg_lem rd _ s)

pub rtl_sm-Permitted :
    (pc src rs1 offset len mmu_mode addr : ℕ) (s : Machine)
    → u64 (reg rs1 s + offset) ≡ addr
    → Permitted pc addr len write mmu_mode s
    → rtl_sm pc src rs1 offset len mmu_mode s
      ≡ ok tt (record s { pmem = store_bytes len s.pmem addr (reg src s) })
unfolding rtl_sm
rtl_sm-Permitted pc src rs1 offset len mmu_mode addr s e p =
    rw e (vaddr_write-Permitted pc addr len (reg src s) mmu_mode s p)

-- A store of a register that memory permits, then a load of the same bytes: the destination receives
-- the low bytes of the stored register with their sign, and no other register changes.
pub rtl_lms-rtl_sm :
    (pc pc' src rd rs1 offset len mmu_mode mmu_mode' : ℕ) (s : Machine)
    → Permitted pc (u64 (reg rs1 s + offset)) len write mmu_mode s
    → Permitted pc' (u64 (reg rs1 s + offset)) len read mmu_mode' s
    → (rtl_sm pc src rs1 offset len mmu_mode >>= λ _. rtl_lms pc' rd rs1 offset len mmu_mode') s
      ≡ ok tt (record s {
        pmem = store_bytes len s.pmem (u64 (reg rs1 s + offset)) (reg src s);
        gpr = after_write rd (sext_len len (reg src s % 2 ^ (8 * len))) s.gpr;
      })
rtl_lms-rtl_sm pc pc' src rd rs1 offset len mmu_mode mmu_mode' s w r =
    rw (rtl_sm-Permitted pc src rs1 offset len mmu_mode _ s refl w) (
      rtl_lms-Permitted pc' rd rs1 offset len mmu_mode' _ (record s { pmem = mem }) refl
        (Permitted-moved mem s.gpr s.lr_addr s.lr_valid s.amo s pc' (u64 (reg rs1 s + offset)) len
          read mmu_mode' r)
      ∙ ap (λ (v : ℕ). ok tt (record s { pmem = mem; gpr = after_write rd (sext_len len v) s.gpr }))
          (load_bytes-store_bytes len s.pmem (u64 (reg rs1 s + offset)) (reg src s)))
  where
    mem : ℕ → ℕ
    mem = store_bytes len s.pmem (u64 (reg rs1 s + offset)) (reg src s)
