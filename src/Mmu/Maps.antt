-- ===== src/Mmu/Maps.antt =====
-- The page that a walk returns for a mapped address.
use native.Mathlib.Nat.{pow-succ', div-div-eq-div-mul}
use nemu.Base.{
  ℕ, zero, suc, ◌+◌, ◌-◌, ◌*◌, ◌/◌, ◌%◌, ◌^◌, ◌<◌, ◌≤◌, ◌≡◌, sym, ap, ◌∙◌, arith, ◌==◌, ◌!=◌,
}
use nemu.Base.{true, false, not, ◌&&◌, bit_and, bit_or, not64}
use nemu.Bits.{bit_and_step}
use nemu.Bits.Pack.{bit_and_ones, bit_and_mask, bit_or-add, bit_or_comm, zero-bit_or}
use nemu.Machine.{Machine, ok, MemType}
use nemu.Machine.Csr
use nemu.Mmu.{
  check_permission, ptw_end, ptw, WalkEnd, leaf, bad, leaf_base, pgbase, update_ad, vpni_shft,
  sext39,
}
use nemu.Mmu.Table.{Holds, unusable, page, pointer, too_deep, walk_loop-Holds}

-- A leaf at no higher level than the walk starts at, with a word as its base.
Bounded : ℕ → WalkEnd → Type 0
Bounded top (leaf level base p_pte pte) = (level ≤ top) × (base < 2 ^ 64)
Bounded top (bad pte) = Unit {0}

Bounded-suc : (top : ℕ) (end : WalkEnd) → Bounded top end → Bounded (suc top) end
unfolding Bounded
Bounded-suc top (leaf level base p_pte pte) h = (omega (arith, h.0), h.1)
Bounded-suc top (bad pte) h = tt

Holds-Bounded :
    {vaddr : ℕ} {type : MemType} {s : Machine} {top base : ℕ} {end : WalkEnd}
    → Holds vaddr type s top base end
    → Bounded top end
unfolding Bounded
Holds-Bounded (unusable r u) = tt
Holds-Bounded (page r u l) = (omega arith, omega arith)
Holds-Bounded (pointer {level} {end = end} r u l h) = Bounded-suc level end (Holds-Bounded h)
Holds-Bounded (too_deep r u l) = tt

-- A mask with `k` zeros rounds down.
bit_and_high :
    (k m a : ℕ) → bit_and (a / 2 ^ k) m ≡ a / 2 ^ k → bit_and a (m * 2 ^ k) ≡ a / 2 ^ k * 2 ^ k
bit_and_high zero m a h =
    ap (λ (t : ℕ). bit_and a t) (once m) ∙ ap (λ (t : ℕ). bit_and t m) (whole a) ∙ h ∙ omega arith
  where
    once : (n : ℕ) → n * 2 ^ 0 ≡ n
    once n = omega arith

    whole : (n : ℕ) → n ≡ n / 2 ^ 0
    whole n = omega arith
bit_and_high (suc k) m a h = omega (
  arith,
  bit_and_step a (m * 2 ^ suc k),
  twice m,
  twice (a / 2 ^ suc k),
  ap (λ (t : ℕ). bit_and (a / 2) (t / 2)) (twice m),
  ap (λ (t : ℕ). bit_and (a / 2) t) (half (m * 2 ^ k)),
  bit_and_high k m (a / 2) (ap (λ (t : ℕ). bit_and t m) halved ∙ h ∙ sym halved),
  ap (λ (t : ℕ). t * 2 ^ k) halved,
)
  where
    twice : (n : ℕ) → n * 2 ^ suc k ≡ 2 * (n * 2 ^ k)
    twice n = omega (arith, ap (λ (t : ℕ). n * t) (pow-succ' 2 k))

    half : (n : ℕ) → 2 * n / 2 ≡ n
    half n = omega arith

    halved : a / 2 / 2 ^ k ≡ a / 2 ^ suc k
    halved = div-div-eq-div-mul a 2 (2 ^ k) ∙ ap (λ (t : ℕ). a / t) (sym (pow-succ' 2 k))

-- The part of an address below the page of a level, rounded down to a small page.
abbrev pub page_within : ℕ → ℕ → ℕ
page_within level vaddr = vaddr % 2 ^ vpni_shft level / 2 ^ 12 * 2 ^ 12

small_page : (x : ℕ) → x < 2 ^ 64 → bit_and x (not64 (2 ^ 12 - 1)) ≡ x / 2 ^ 12 * 2 ^ 12
small_page x h = bit_and_high 12 (2 ^ 52 - 1) x (bit_and_ones 52 (x / 2 ^ 12) (omega arith))

-- The page of a leaf whose base is aligned to its level.
leaf_base_lem :
    (level base vaddr : ℕ)
    → level ≤ 2
    → base < 2 ^ 64
    → base % 2 ^ vpni_shft level ≡ 0
    → leaf_base level base vaddr ≡ base + page_within level vaddr
unfolding leaf_base
leaf_base_lem zero base vaddr h lt z = omega arith
leaf_base_lem (suc zero) base vaddr h lt z =
    rw
      (
        bit_and_high 21 (2 ^ 43 - 1) base (bit_and_ones 43 (base / 2 ^ 21) (omega arith)),
        bit_and_mask 21 vaddr,
        small_page (vaddr % 2 ^ 21) (omega arith),
      )
      (bit_or-add 21 (base / 2 ^ 21 * 2 ^ 21) (page_within 1 vaddr) (omega arith) (omega arith)
        ∙ omega arith)
leaf_base_lem (suc (suc zero)) base vaddr h lt z =
    rw
      (
        bit_and_high 30 (2 ^ 34 - 1) base (bit_and_ones 34 (base / 2 ^ 30) (omega arith)),
        bit_and_mask 30 vaddr,
        small_page (vaddr % 2 ^ 30) (omega arith),
      )
      (bit_or-add 30 (base / 2 ^ 30 * 2 ^ 30) (page_within 2 vaddr) (omega arith) (omega arith)
        ∙ omega arith)
leaf_base_lem (suc (suc (suc level))) base vaddr h lt z = absurd (omega arith)

or_zero : (a : ℕ) → bit_or a 0 ≡ a
or_zero a = bit_or_comm a 0 ∙ zero-bit_or a

aligned_lem :
    (level base : ℕ)
    → base % 2 ^ vpni_shft level ≡ 0
    → (not (level == 0) && (bit_and base (2 ^ vpni_shft level - 1) != 0)) ≡ false
aligned_lem level base z = ground (arith, bit_and_mask (vpni_shft level) base)

Bounded-leaf :
    (level base p_pte pte : ℕ)
    → Bounded 2 (leaf level base p_pte pte)
    → (level ≤ 2) × (base < 2 ^ 64)
unfolding Bounded
Bounded-leaf level base p_pte pte h = h

-- A canonical address for which the page tables in memory hold a page that is aligned to its level and
-- whose permissions allow the access: the walk returns the small page at the place of the address
-- within that page, in the state that the update of its accessed and dirty bits leaves.
pub ptw-Holds :
    (vaddr : ℕ) (type : MemType) (level base p_pte pte : ℕ) (s t : Machine)
    → sext39 vaddr ≡ vaddr
    → Holds vaddr type s 2
        (pgbase (Csr.satp_ppn (s.csr_array Csr.satp)))
        (leaf level base p_pte pte)
    → base % 2 ^ vpni_shft level ≡ 0
    → check_permission pte true vaddr type s ≡ ok tt s
    → update_ad p_pte pte vaddr type s ≡ ok tt t
    → ptw vaddr type s ≡ ok (base + page_within level vaddr) t
unfolding ptw ptw_end
ptw-Holds vaddr type level base p_pte pte s t c h z p u =
    let b = Bounded-leaf level base p_pte pte (Holds-Bounded h) in
    rw (canonical_lem vaddr c, walk_loop-Holds h, p, aligned_lem level base z, u)
      (ap (λ (a : ℕ). ok a t)
        (or_zero (leaf_base level base vaddr) ∙ leaf_base_lem level base vaddr b.0 b.1 z))
  where
    canonical_lem : (vaddr : ℕ) → sext39 vaddr ≡ vaddr → (sext39 vaddr != vaddr) ≡ false
    canonical_lem vaddr c = ground arith

pub Holds-level :
    {vaddr : ℕ} {type : MemType} {s : Machine} {top root level base p_pte pte : ℕ}
    → Holds vaddr type s top root (leaf level base p_pte pte)
    → level ≤ top
unfolding Bounded
Holds-level h = (Holds-Bounded h).0
