-- ===== src/Priv/Write/PmpCfg.antt =====
-- Writes to the pmpcfg registers: what each byte becomes.
use native.Mathlib.Nat.{mul-le-mul_right}
use nemu.Base.{
  ℕ, zero, suc, ◌+◌, ◌*◌, ◌/◌, ◌%◌, ◌^◌, ◌≤◌, ◌<◌, ◌≡◌, ◌≢◌, refl, ◌⊎◌, arith, Bool, true,
}
use nemu.Base.{
  false, not, every_below, every_below_lem, ◌&&◌, ◌||◌, ◌==◌, ltb, field, bit_or, ◌∙◌, ap,
}
use nemu.Bits.Pack.{bit_or-eq-add, pow_add8}
use nemu.Machine.{Machine, ok, set_csr}
use nemu.Priv.Write.{
  legal_pmpcfg, pmpcfg_loop, is_pmpcfg, store_csr, after_store, csr_write, no_entry,
}
use nemu.Priv.Write.{mmu_tlb_flush, hosttlb_flush, set_sys_state_flag}
use nemu.Priv.Read.{at}

-- A byte that the architecture allows: the reserved bits are clear, W comes with R, and the entry
-- is not NA4.
unfoldable pub is_legal_pmpcfg : ℕ → Bool
is_legal_pmpcfg c = ltb c 256 && (field c 5 2 == 0) && not (c % 4 == 2) && not (field c 3 2 == 2)

-- R, X and L.
unfoldable pub same_rxl : ℕ → ℕ → Bool
same_rxl b c = (b % 2 == c % 2) && (field b 2 1 == field c 2 1) && (field b 7 1 == field c 7 1)

legal_pmpcfg_table :
    every_below
      (λ b.
        is_legal_pmpcfg (legal_pmpcfg b)
        && same_rxl b (legal_pmpcfg b)
        && (not (is_legal_pmpcfg b) || (legal_pmpcfg b == b)))
      256
    ≡ true
unfolding every_below is_legal_pmpcfg legal_pmpcfg same_rxl
legal_pmpcfg_table = refl

-- For every byte written, the byte that is stored is legal, keeps R, X and L of the byte written,
-- and is that byte where it was legal.
pub legal_pmpcfg_lem :
    (b : ℕ)
    → b < 256
    → (is_legal_pmpcfg (legal_pmpcfg b) ≡ true)
      × (same_rxl b (legal_pmpcfg b) ≡ true)
      × ((is_legal_pmpcfg b ≡ false) ⊎ (legal_pmpcfg b ≡ b))
legal_pmpcfg_lem b lt = let t = every_below_lem _ 256 legal_pmpcfg_table b lt in ground (arith, t)

pub legal_pmpcfg-lt : (b : ℕ) → b < 256 → legal_pmpcfg b < 256
unfolding is_legal_pmpcfg
legal_pmpcfg-lt b lt = let t = legal_pmpcfg_lem b lt in ground (arith, t.0)

abbrev byte : ℕ → ℕ → ℕ
byte src i = src / 2 ^ (i * 8) % 256

-- One round of the loop adds a byte above the bytes so far.
pmpcfg_loop_step :
    (left i src acc : ℕ)
    → acc < 2 ^ (i * 8)
    → pmpcfg_loop (suc left) i src acc
      ≡ pmpcfg_loop left (i + 1) src (acc + legal_pmpcfg (byte src i) * 2 ^ (i * 8))
unfolding pmpcfg_loop
pmpcfg_loop_step left i src acc h =
    ap (λ (t : ℕ). pmpcfg_loop left (i + 1) src t) (bit_or-eq-add (i * 8) acc _ h)

-- The bytes from `i` on, each in its place.
packed : ℕ → ℕ → (ℕ → ℕ) → ℕ
packed zero i b = 0
packed (suc left) i b = b i * 2 ^ (i * 8) + packed left (i + 1) b

room : (p l acc : ℕ) → acc < p → l < 256 → acc + l * p < 256 * p
room p l acc h lt = let le : l ≤ 255 = omega arith in omega (arith, mul-le-mul_right p le)

pmpcfg_loop-eq-packed :
    (left i src acc : ℕ)
    → acc < 2 ^ (i * 8)
    → pmpcfg_loop left i src acc ≡ acc + packed left i (λ j. legal_pmpcfg (byte src j))
unfolding pmpcfg_loop packed
pmpcfg_loop-eq-packed zero i src acc h = omega arith
pmpcfg_loop-eq-packed (suc left) i src acc h =
    let l : ℕ = legal_pmpcfg (byte src i) in
    pmpcfg_loop_step left i src acc h
    ∙ pmpcfg_loop-eq-packed left (i + 1) src (acc + l * 2 ^ (i * 8))
        (next i l acc h (legal_pmpcfg-lt _ (omega arith)))
    ∙ omega arith
  where
    place : (i : ℕ) → (i + 1) * 8 ≡ i * 8 + 8
    place i = omega arith

    next : (i l acc : ℕ) → acc < 2 ^ (i * 8) → l < 256 → acc + l * 2 ^ (i * 8) < 2 ^ ((i + 1) * 8)
    next i l acc h lt =
        omega
          (arith, room (2 ^ (i * 8)) l acc h lt, pow_add8 (i * 8), ap (λ (t : ℕ). 2 ^ t) (place i))

packed-byte :
    (b : ℕ → ℕ) → ((i : ℕ) → b i < 256) → (i : ℕ) → i < 8 → packed 8 0 b / 2 ^ (i * 8) % 256 ≡ b i
unfolding packed
packed-byte b h zero lt = omega (arith, h 0)
packed-byte b h (suc zero) lt = omega (arith, h 0, h 1)
packed-byte b h (suc (suc zero)) lt = omega (arith, h 0, h 1, h 2)
packed-byte b h (suc (suc (suc zero))) lt = omega (arith, h 0, h 1, h 2, h 3)
packed-byte b h (suc (suc (suc (suc zero)))) lt = omega (arith, h 0, h 1, h 2, h 3, h 4)
packed-byte b h (suc (suc (suc (suc (suc zero))))) lt = omega (arith, h 0, h 1, h 2, h 3, h 4, h 5)
packed-byte b h (suc (suc (suc (suc (suc (suc zero)))))) lt =
    omega (arith, h 0, h 1, h 2, h 3, h 4, h 5, h 6)
packed-byte b h (suc (suc (suc (suc (suc (suc (suc zero))))))) lt =
    omega (arith, h 0, h 1, h 2, h 3, h 4, h 5, h 6, h 7)
packed-byte b h (suc (suc (suc (suc (suc (suc (suc (suc i)))))))) lt = absurd (omega arith)

-- A write to pmpcfg0 to pmpcfg3: every byte becomes a legal one, no other register changes, the
-- host TLB is emptied and the flush flag is set.
pub record PmpcfgWrite (a src : ℕ) (s : Machine) : Type 0 where
  pub after : Machine
  pub returns : csr_write (at a) src s ≡ ok tt after
  pub bytes :
      (i : ℕ)
      → i < 8
      → after.csr_array a / 2 ^ (i * 8) % 256 ≡ legal_pmpcfg (src / 2 ^ (i * 8) % 256)
  pub legal : (i : ℕ) → i < 8 → is_legal_pmpcfg (after.csr_array a / 2 ^ (i * 8) % 256) ≡ true
  pub others : (b : ℕ) → b ≢ a → after.csr_array b ≡ s.csr_array b
  pub flushed : (idx : ℕ) → (after.hostrtlb idx ≡ no_entry) × (after.hostwtlb idx ≡ no_entry)

store_csr_pmpcfg :
    (a src : ℕ) (s : Machine)
    → is_pmpcfg a ≡ true
    → store_csr a src s ≡ mmu_tlb_flush 0 (set_csr a (pmpcfg_loop 8 0 src 0) s)
unfolding store_csr
store_csr_pmpcfg a src s h = ground arith

after_store_pmpcfg : (a : ℕ) (s : Machine) → is_pmpcfg a ≡ true → after_store a s ≡ ok tt s
unfolding after_store
after_store_pmpcfg a s h = ground arith

pmpcfg_loop-byte :
    (src i : ℕ)
    → i < 8
    → pmpcfg_loop 8 0 src 0 / 2 ^ (i * 8) % 256 ≡ legal_pmpcfg (src / 2 ^ (i * 8) % 256)
pmpcfg_loop-byte src i lt =
    ap (λ (t : ℕ). t / 2 ^ (i * 8) % 256)
      (pmpcfg_loop-eq-packed 8 0 src 0 (omega arith) ∙ omega arith)
    ∙ packed-byte (λ j. legal_pmpcfg (byte src j)) (λ j. legal_pmpcfg-lt _ (omega arith)) i lt

abbrev pmpcfg_after : ℕ → ℕ → Machine → Machine
pmpcfg_after a src s = record (set_csr a (pmpcfg_loop 8 0 src 0) s) {
  hostrtlb = λ _. no_entry;
  hostwtlb = λ _. no_entry;
  sys_state_flag = bit_or s.sys_state_flag 2;
}

pmpcfg_after-reg :
    (a src : ℕ) (s : Machine) → (pmpcfg_after a src s).csr_array a ≡ pmpcfg_loop 8 0 src 0
pmpcfg_after-reg a src s = ground arith

flush_after :
    (a v : ℕ) (s : Machine)
    → mmu_tlb_flush 0 (set_csr a v s)
      ≡ ok tt (record (set_csr a v s) {
        hostrtlb = λ _. no_entry;
        hostwtlb = λ _. no_entry;
        sys_state_flag = bit_or s.sys_state_flag 2;
      })
unfolding mmu_tlb_flush hosttlb_flush set_sys_state_flag
flush_after a v s = refl

-- A write to a pmpcfg register returns: each of the eight bytes becomes the legal byte that
-- legal_pmpcfg makes of the byte written, no other register changes, and both host TLBs are
-- emptied.
pub csr_write-PmpcfgWrite : (a src : ℕ) (s : Machine) → is_pmpcfg a ≡ true → PmpcfgWrite a src s
unfolding csr_write
csr_write-PmpcfgWrite a src s h = record {
  after = pmpcfg_after a src s;
  returns =
      rw (store_csr_pmpcfg a src s h, flush_after a (pmpcfg_loop 8 0 src 0) s)
        (after_store_pmpcfg a (pmpcfg_after a src s) h);
  bytes = λ i lt. rw (pmpcfg_after-reg a src s) (pmpcfg_loop-byte src i lt);
  legal = λ i lt.
      rw (pmpcfg_after-reg a src s, pmpcfg_loop-byte src i lt)
        ((legal_pmpcfg_lem _ (omega arith)).0);
  others = λ b ne. ground arith;
  flushed = λ idx. (refl, refl);
}
