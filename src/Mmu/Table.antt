-- ===== src/Mmu/Table.antt =====
-- The page tables in memory as a mapping, and the walk that follows them.
use nemu.Base.{ℕ, zero, suc, ◌+◌, ◌*◌, ◌/◌, ◌%◌, ◌^◌, ◌≡◌, refl, ◌==◌}
use nemu.Base.{Bool, true, false, ◌&&◌, ◌||◌, u64}
use nemu.Machine.{Machine, ok, MemType, mode_s, truth}
use nemu.Machine.{ifetch, read, write, ifetch_read, write_read, is_ifetch, is_any_read}
use nemu.Pmp.{isa_pmp_check_permission}
use nemu.Memory.Host.{load_bytes}
use nemu.Memory.Paddr.{in_pmem, paddr_read}
use nemu.Memory.Paddr.Access.{paddr_read_memory}
use nemu.Mmu.{walk_loop, WalkEnd, leaf, bad, walk_entry, walk_type, pgbase, vpni, pte_size}
use nemu.Mmu.Pte

-- The entry for an address in the table at `base`, and the word there.
abbrev pub entry_addr : ℕ → ℕ → ℕ → ℕ
entry_addr vaddr level base = u64 (base + vaddr / 2 ^ (12 + 9 * level) % 512 * 8)

abbrev pub entry : ℕ → ℕ → ℕ → Machine → ℕ
entry vaddr level base s = load_bytes 8 s.pmem (entry_addr vaddr level base)

-- Reserved or not valid, and a leaf.
abbrev pub is_unusable : ℕ → Bool
is_unusable pte = (Pte.v pte == 0) || ((Pte.r pte == 0) && truth (Pte.w pte))

abbrev pub is_leaf : ℕ → Bool
is_leaf pte = truth (Pte.r pte) || truth (Pte.x pte)

-- The table is in memory, where PMP lets the walk read it.
pub record Readable (addr : ℕ) (type : MemType) (s : Machine) : Type 0 where
  pub pmp : isa_pmp_check_permission addr 8 (walk_type type) mode_s s ≡ true
  pub memory : in_pmem addr ≡ true

-- What the tables from `base` on, at a level, hold for an address: a pointer leads to the table of the
-- level below.
pub data Holds (vaddr : ℕ) (type : MemType) (s : Machine) : ℕ → ℕ → WalkEnd → Type 0 where
  unusable :
      {level base : ℕ}
      → Readable (entry_addr vaddr level base) type s
      → is_unusable (entry vaddr level base s) ≡ true
      → Holds vaddr type s level base (bad (entry vaddr level base s))
  page :
      {level base : ℕ}
      → Readable (entry_addr vaddr level base) type s
      → is_unusable (entry vaddr level base s) ≡ false
      → is_leaf (entry vaddr level base s) ≡ true
      → Holds vaddr type s level base (
          leaf level
            (pgbase (Pte.ppn (entry vaddr level base s)))
            (entry_addr vaddr level base)
            (entry vaddr level base s))
  pointer :
      {level base : ℕ} {end : WalkEnd}
      → Readable (entry_addr vaddr (suc level) base) type s
      → is_unusable (entry vaddr (suc level) base s) ≡ false
      → is_leaf (entry vaddr (suc level) base s) ≡ false
      → Holds vaddr type s level (pgbase (Pte.ppn (entry vaddr (suc level) base s))) end
      → Holds vaddr type s (suc level) base end
  too_deep :
      {base : ℕ}
      → Readable (entry_addr vaddr 0 base) type s
      → is_unusable (entry vaddr 0 base s) ≡ false
      → is_leaf (entry vaddr 0 base s) ≡ false
      → Holds vaddr type s 0 base (bad (entry vaddr 0 base s))

reads_or_fetches :
    (type : MemType) → (is_any_read (walk_type type) || is_ifetch (walk_type type)) ≡ true
unfolding walk_type
reads_or_fetches ifetch = refl
reads_or_fetches read = refl
reads_or_fetches write = refl
reads_or_fetches ifetch_read = refl
reads_or_fetches write_read = refl

read_entry :
    (addr vaddr : ℕ) (type : MemType) (s : Machine)
    → Readable addr type s
    → paddr_read addr pte_size (walk_type type) mode_s vaddr s ≡ ok (load_bytes 8 s.pmem addr) s
read_entry addr vaddr type s r =
    paddr_read_memory addr 8 (walk_type type) mode_s vaddr s refl (reads_or_fetches type) r.pmp
      r.memory

-- The loop of the walk finds what the tables hold, and changes nothing.
pub walk_loop-Holds :
    {vaddr : ℕ} {type : MemType} {s : Machine} {level base : ℕ} {end : WalkEnd}
    → Holds vaddr type s level base end
    → walk_loop level base vaddr type s ≡ ok end s
unfolding walk_loop walk_entry vpni
walk_loop-Holds {vaddr} {type} {s} (unusable {level = zero} {base = base} r u) =
    rw (read_entry (entry_addr vaddr 0 base) vaddr type s r, u) refl
walk_loop-Holds {vaddr} {type} {s} (unusable {level = suc level} {base = base} r u) =
    rw (read_entry (entry_addr vaddr (suc level) base) vaddr type s r, u) refl
walk_loop-Holds {vaddr} {type} {s} (page {level = zero} {base = base} r u l) =
    rw (read_entry (entry_addr vaddr 0 base) vaddr type s r, u, l) refl
walk_loop-Holds {vaddr} {type} {s} (page {level = suc level} {base = base} r u l) =
    rw (read_entry (entry_addr vaddr (suc level) base) vaddr type s r, u, l) refl
walk_loop-Holds {vaddr} {type} {s} (pointer {level} {base} r u l h) =
    rw (read_entry (entry_addr vaddr (suc level) base) vaddr type s r, u, l) (walk_loop-Holds h)
walk_loop-Holds {vaddr} {type} {s} (too_deep {base} r u l) =
    rw (read_entry (entry_addr vaddr 0 base) vaddr type s r, u, l) refl
