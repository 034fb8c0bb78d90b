-- ===== src/Pmp/Rules.antt =====
-- Which entry decides an access, and what a match is.
use nemu.Base.{ℕ, zero, suc, ◌+◌, ◌≤◌, ◌<◌, ◌≡◌, refl, inl, inr, ◌⊎◌, arith, Bool}
use nemu.Base.{if◌then◌else◌, ◌==◌, shl64, bit_and, sym, ◌∙◌, ap}
use nemu.Base.{Option, none, some}
use nemu.Machine.{Machine, MemType, mode_m, ifetch, is_ifetch}
use nemu.Trap.{effective_mode}
use nemu.Pmp.{entry_at, entry_verdict, pmp_loop, isa_pmp_check_permission, pmpaddr_from_index}
use nemu.Pmp.{pmp_tor_mask, or_later}
use nemu.Pmp.Entries.{entry_base, Says}
use nemu.Pmp.Verdicts.{entry_verdict-Says}
use nemu.Machine.Csr
use nemu.Base.{true, field, ◌↔◌}
use mathlib.Core.Path.{subst}

-- The mode that counts.
abbrev pub checked_mode : MemType → ℕ → Machine → ℕ
checked_mode ifetch out_mode s = if out_mode == 3 then s.mode else out_mode
checked_mode _ out_mode s =
    if out_mode == 3
    then (if field (s.csr_array Csr.mstatus) 17 1 == 1
        then field (s.csr_array Csr.mstatus) 11 2
        else s.mode)
    else out_mode

checked_mode_lem :
    (type : MemType) (out_mode : ℕ) (s : Machine)
    → (if out_mode == mode_m then effective_mode (is_ifetch type) s else out_mode)
      ≡ checked_mode type out_mode s
unfolding effective_mode
checked_mode_lem ifetch out_mode s = ground arith
checked_mode_lem _ out_mode s = ground arith

module _ (addr len : ℕ) (type : MemType) (mode : ℕ) (s : Machine) where
  -- What entry `i` says.
  abbrev verdict_of : ℕ → Option Bool
  verdict_of i = entry_verdict i (entry_base i s) addr len type mode s

  -- The rule of the architecture, for the entries below `n`: the first entry that says something decides,
  -- and where none does, machine mode passes and the others do not.
  pub data Decides (n : ℕ) (r : Bool) : Type 0 where
    by_entry :
        (k : ℕ)
        → k < n
        → ((j : ℕ) → j < k → Says addr len type mode s j none)
        → Says addr len type mode s k (some r)
        → Decides n r
    by_default :
        ((j : ℕ) → j < n → Says addr len type mode s j none) → (r ≡ true) ↔ (mode ≡ 3) → Decides n r

  -- The same of the verdicts that the code computes, for the entries from `i` on.
  data Loops (i n : ℕ) (r : Bool) : Type 0 where
    loop_by_entry :
        (k : ℕ)
        → (i ≤ k) × (k < n)
        → ((j : ℕ) → i ≤ j → j < k → verdict_of j ≡ none)
        → verdict_of k ≡ some r
        → Loops i n r
    loop_by_default :
        ((j : ℕ) → i ≤ j → j < n → verdict_of j ≡ none) → r ≡ (mode == mode_m) → Loops i n r

  abbrev loop : ℕ → ℕ → Bool
  loop left i = pmp_loop left i (entry_base i s) addr len type mode s

  loop-none : (left i : ℕ) → verdict_of i ≡ none → loop (suc left) i ≡ loop left (i + 1)
  unfolding pmp_loop entry_at entry_base
  loop-none left i h =
      ap
        (λ (v : Option Bool).
          or_later v
            (pmp_loop left (i + 1) (entry_at i (entry_base i s) s).tor addr len type mode s))
        h
      ∙ ap (λ (b : ℕ). pmp_loop left (i + 1) b addr len type mode s) (base_next i)
    where
      more : (i : ℕ) → suc i ≡ i + 1
      more i = omega arith

      base_next :
          (i : ℕ) → shl64 (bit_and (pmpaddr_from_index i s) pmp_tor_mask) 2 ≡ entry_base (i + 1) s
      base_next i = ap (λ (k : ℕ). entry_base k s) (more i)

  loop-some : (left i : ℕ) (b : Bool) → verdict_of i ≡ some b → loop (suc left) i ≡ b
  unfolding pmp_loop entry_at entry_base
  loop-some left i b h =
      ap
        (λ (v : Option Bool).
          or_later v
            (pmp_loop left (i + 1) (entry_at i (entry_base i s) s).tor addr len type mode s))
        h

  none_from :
      (i n : ℕ)
      → verdict_of i ≡ none
      → ((j : ℕ) → i + 1 ≤ j → j < n → verdict_of j ≡ none)
      → (j : ℕ) → i ≤ j
      → j < n
      → verdict_of j ≡ none
  none_from i n h before j le lt = elim (eq_or_above i j le) [
    | inl e ↦ rw e h
    | inr above ↦ before j above lt
  ]
    where
      eq_or_above : (i j : ℕ) → i ≤ j → (j ≡ i) ⊎ (i + 1 ≤ j)
      eq_or_above i j le = omega arith

  later : (i n : ℕ) (r : Bool) → verdict_of i ≡ none → Loops (i + 1) n r → Loops i n r
  later i n r h (loop_by_entry k range before hit) =
      loop_by_entry k (omega (arith, range)) (none_from i k h before) hit
  later i n r h (loop_by_default before e) = loop_by_default (none_from i n h before) e

  first :
      (i n : ℕ) (v : Option Bool)
      → verdict_of i ≡ v
      → (r : Bool) → i < n
      → ((b : Bool) → v ≡ some b → r ≡ b)
      → (v ≡ none → Loops (i + 1) n r)
      → Loops i n r
  first i n none e r lt hit next = later i n r e (next refl)
  first i n (some b) e r lt hit next =
      loop_by_entry i (omega arith, lt) (λ j le below. absurd (omega arith)) (rw (hit b refl) e)

  pmp_loop-Loops : (left i : ℕ) → Loops i (i + left) (loop left i)
  unfolding pmp_loop
  pmp_loop-Loops zero i = loop_by_default (λ j le lt. absurd (omega arith)) refl
  pmp_loop-Loops (suc left) i =
      first i (i + suc left) (verdict_of i) refl (loop (suc left) i) (omega arith)
        (λ b e. loop-some left i b e)
        (λ e. rw (loop-none left i e) (rw (sym (shift i left)) (pmp_loop-Loops left (i + 1))))
    where
      shift : (i left : ℕ) → i + 1 + left ≡ i + suc left
      shift i left = omega arith

  said : (i : ℕ) (v : Option Bool) → verdict_of i ≡ v → Says addr len type mode s i v
  said i v e =
      subst (λ (t : Option Bool). Says addr len type mode s i t) e
        (entry_verdict-Says addr len type mode s i)

  Decides-Loops : (n : ℕ) (r : Bool) → Loops 0 n r → Decides n r
  Decides-Loops n r (loop_by_entry k range before hit) =
      by_entry k (omega (arith, range)) (λ j lt. said j none (before j (omega arith) lt))
        (said k (some r) hit)
  Decides-Loops n r (loop_by_default before e) =
      by_default (λ j lt. said j none (before j (omega arith) lt)) (ground arith)

-- The check is the rule of the architecture, for sixteen entries of a granularity of 4096 bytes: the first
-- entry that holds a 4-byte sector of the access decides. It refuses one that it does not hold whole, lets
-- machine mode pass if it is not locked, and else asks its permission bit for the access. Where no entry
-- does, machine mode passes and the others do not. A mode other than machine mode is taken as the caller
-- passes it; for machine mode it is that of the hart, or with MPRV set and no fetch that before the trap.
pub isa_pmp_check_permission-Decides :
    (addr len : ℕ) (type : MemType) (out_mode : ℕ) (s : Machine)
    → Decides addr len type
        (checked_mode type out_mode s)
        s
        16
        (isa_pmp_check_permission addr len type out_mode s)
unfolding isa_pmp_check_permission entry_base
isa_pmp_check_permission-Decides addr len type out_mode s = rw (checked_mode_lem type out_mode s) (
    Decides-Loops addr len type (checked_mode type out_mode s) s 16 _
      (pmp_loop-Loops addr len type (checked_mode type out_mode s) s 16 0))
