-- ===== src/Mmu/Pte.antt =====
-- The fields of PageTableEntry (isa/riscv64/system/mmu.c).
use nemu.Base.{ℕ, field, set_field}

abbrev pub v : ℕ → ℕ
v pte = field pte 0 1

abbrev pub r : ℕ → ℕ
r pte = field pte 1 1

abbrev pub w : ℕ → ℕ
w pte = field pte 2 1

abbrev pub x : ℕ → ℕ
x pte = field pte 3 1

abbrev pub u : ℕ → ℕ
u pte = field pte 4 1

abbrev pub a : ℕ → ℕ
a pte = field pte 6 1

abbrev pub d : ℕ → ℕ
d pte = field pte 7 1

abbrev pub ppn : ℕ → ℕ
ppn pte = field pte 10 44

abbrev pub pkey : ℕ → ℕ
pkey pte = field pte 54 5

abbrev pub set_a : ℕ → ℕ → ℕ
set_a v pte = set_field pte 6 1 v

abbrev pub set_d : ℕ → ℕ → ℕ
set_d v pte = set_field pte 7 1 v
