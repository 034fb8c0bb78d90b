-- ===== src/Mmu/Walk.antt =====
-- What the page walk returns: nothing, or the base of a page.
use nemu.Base.{ℕ, zero, suc, ◌+◌, ◌-◌, ◌*◌, ◌%◌, ◌^◌, ◌≡◌, refl, inl, inr, arith, true}
use nemu.Base.{false, not, ◌&&◌, ◌||◌, ◌==◌, ◌!=◌, Bool-cases, bit_and, bit_or, not64}
use nemu.Bits.Pack.{bit_or-low, bit_and-low}
use nemu.Machine.{Machine, M, MemType, ifetch, read, write, ifetch_read, write_read, is_ifetch}
use nemu.Machine.{assert, get, truth, mode_u, mode_s}
use nemu.Machine.Csr
use nemu.Base.{u64}
use nemu.Memory.Paddr.{paddr_read}
use nemu.Machine.Laws.{OkOnly, Yields, pure-Yields, if-Yields, bind-Yields, then-Yields}
use nemu.Trap.{effective_mode, set_tval}
use nemu.Mmu.{
  check_permission, check_access, page_ok, page_fault, ptw_bad, ptw_end, ptw, walk_loop, WalkEnd,
  leaf, bad,
}
use nemu.Mmu.{leaf_base, walk_entry, pgbase, update_ad, vpni_shft, sext39, vpni, walk_type}
use nemu.Mmu.Pte

-- The base of a page.
abbrev pub IsPage : ℕ → Type 0
IsPage a = a % 2 ^ 12 ≡ 0

-- Where the page is already known to be no good, the check never returns.
check_access-never :
    (pte vaddr : ℕ) (type : MemType) (mode : ℕ) (s : Machine)
    → OkOnly (λ u. ⊥) (check_access pte false vaddr type mode s)
unfolding check_access page_fault set_tval
check_access-never pte vaddr ifetch mode s = ground arith
check_access-never pte vaddr read mode s = tt
check_access-never pte vaddr write mode s = tt
check_access-never pte vaddr ifetch_read mode s = tt
check_access-never pte vaddr write_read mode s = tt

check_permission-never :
    (pte vaddr : ℕ) (type : MemType) → Yields (λ u. ⊥) (check_permission pte false vaddr type)
unfolding check_permission page_ok
check_permission-never pte vaddr type = record {
  run = λ s.
      (then-Yields
          (assert (
            (effective_mode (is_ifetch type) s == mode_u)
            || (effective_mode (is_ifetch type) s == mode_s)))
          (λ u. record {
            run = λ t. check_access-never pte vaddr type (effective_mode (is_ifetch type) s) t;
          })).run
        s;
}

ptw_bad-never : (pte vaddr : ℕ) (type : MemType) → Yields IsPage (ptw_bad pte vaddr type)
unfolding ptw_bad
ptw_bad-never pte vaddr type = bind-Yields (check_permission-never pte vaddr type) (λ u h. absurd h)

leaf_base-IsPage :
    (level pg_base vaddr : ℕ) → IsPage pg_base → IsPage (leaf_base level pg_base vaddr)
unfolding leaf_base
leaf_base-IsPage level pg_base vaddr h = elim (Bool-cases (level == 0)) [
  | inl zero_level ↦ rw zero_level h
  | inr above ↦ rw above (
      bit_or-low 12 _ _ (bit_and-low 12 pg_base _ (inl h))
        (bit_and-low 12 _ (not64 (2 ^ 12 - 1)) (inr refl)))
]

-- The leaf that the loop stops at holds the base of a page.
HoldsPage : WalkEnd → Type 0
HoldsPage (leaf level pg_base p_pte pte) = IsPage pg_base
HoldsPage (bad pte) = Unit {0}

pgbase-IsPage : (pn : ℕ) → IsPage (pgbase pn)
pgbase-IsPage pn = omega arith

walk_entry-HoldsPage :
    (level p_pte pte : ℕ) {next : M WalkEnd}
    → Yields HoldsPage next
    → Yields HoldsPage (walk_entry level p_pte pte next)
unfolding walk_entry HoldsPage
walk_entry-HoldsPage level p_pte pte h =
    if-Yields ((Pte.v pte == 0) || ((Pte.r pte == 0) && truth (Pte.w pte)))
      (pure-Yields (bad pte) tt)
      (if-Yields (truth (Pte.r pte) || truth (Pte.x pte))
        (pure-Yields (leaf level (pgbase (Pte.ppn pte)) p_pte pte) (pgbase-IsPage (Pte.ppn pte))) h)

walk_loop-HoldsPage :
    (level pg_base vaddr : ℕ) (type : MemType)
    → Yields HoldsPage (walk_loop level pg_base vaddr type)
unfolding walk_loop HoldsPage
walk_loop-HoldsPage zero pg_base vaddr type =
    then-Yields (paddr_read (u64 (pg_base + vpni vaddr 0 * 8)) 8 (walk_type type) mode_s vaddr)
      (λ pte.
        walk_entry-HoldsPage 0 (u64 (pg_base + vpni vaddr 0 * 8)) pte (pure-Yields (bad pte) tt))
walk_loop-HoldsPage (suc level) pg_base vaddr type =
    then-Yields
      (paddr_read (u64 (pg_base + vpni vaddr (suc level) * 8)) 8 (walk_type type) mode_s vaddr)
      (λ pte.
        walk_entry-HoldsPage (suc level) (u64 (pg_base + vpni vaddr (suc level) * 8)) pte
          (walk_loop-HoldsPage level (pgbase (Pte.ppn pte)) vaddr type))

ptw_end-IsPage :
    (vaddr : ℕ) (type : MemType) (e : WalkEnd) → HoldsPage e → Yields IsPage (ptw_end vaddr type e)
unfolding ptw_end HoldsPage
ptw_end-IsPage vaddr type (bad pte) h = ptw_bad-never pte vaddr type
ptw_end-IsPage vaddr type (leaf level pg_base p_pte pte) h =
    then-Yields (check_permission pte true vaddr type) (λ u.
      if-Yields (not (level == 0) && (bit_and pg_base (2 ^ vpni_shft level - 1) != 0))
        (ptw_bad-never pte vaddr type)
        (then-Yields (update_ad p_pte pte vaddr type) (λ v.
          pure-Yields (bit_or (leaf_base level pg_base vaddr) 0) (
            bit_or-low 12 (leaf_base level pg_base vaddr) 0 (leaf_base-IsPage level pg_base vaddr h)
              refl))))

-- The walk never returns its failure code: where it returns, the result is the base of a page.
pub ptw-IsPage : (vaddr : ℕ) (type : MemType) → Yields IsPage (ptw vaddr type)
unfolding ptw
ptw-IsPage vaddr type = if-Yields (sext39 vaddr != vaddr) (ptw_bad-never 0 vaddr type) (
    then-Yields get (λ s.
      bind-Yields (walk_loop-HoldsPage 2 (pgbase (Csr.satp_ppn (s.csr_array Csr.satp))) vaddr type)
        (λ e h. ptw_end-IsPage vaddr type e h)))
