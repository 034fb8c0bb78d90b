-- ===== src/Machine/Csr/Dsmcfg.antt =====
-- The bit fields mcfg_* of dsmcfg, DSMCFG_MASK and DUMCFG_MASK (isa/riscv64/local-include/csr.h).
use nemu.Base.{ℕ, field}

abbrev pub sena : ℕ → ℕ
sena w = field w 0 1

abbrev pub uena : ℕ → ℕ
uena w = field w 1 1

abbrev pub cuet : ℕ → ℕ
cuet w = field w 2 1

abbrev pub cust : ℕ → ℕ
cust w = field w 3 1

abbrev pub cult : ℕ → ℕ
cult w = field w 4 1

abbrev pub cuft : ℕ → ℕ
cuft w = field w 5 1

abbrev pub cset : ℕ → ℕ
cset w = field w 6 1

abbrev pub csst : ℕ → ℕ
csst w = field w 7 1

abbrev pub cslt : ℕ → ℕ
cslt w = field w 8 1

abbrev pub csft : ℕ → ℕ
csft w = field w 9 1

abbrev pub dumcfg_mask : ℕ
dumcfg_mask = 0x3e

abbrev pub dsmcfg_mask : ℕ
dsmcfg_mask = 0x3ff
