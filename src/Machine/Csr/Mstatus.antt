-- ===== src/Machine/Csr/Mstatus.antt =====
-- The bit fields of mstatus (isa/riscv64/local-include/csr.h), read and written.
use nemu.Base.{ℕ, field, set_field}

abbrev pub uie : ℕ → ℕ
uie w = field w 0 1

abbrev pub set_uie : ℕ → ℕ → ℕ
set_uie v w = set_field w 0 1 v

abbrev pub sie : ℕ → ℕ
sie w = field w 1 1

abbrev pub set_sie : ℕ → ℕ → ℕ
set_sie v w = set_field w 1 1 v

abbrev pub mie : ℕ → ℕ
mie w = field w 3 1

abbrev pub set_mie : ℕ → ℕ → ℕ
set_mie v w = set_field w 3 1 v

abbrev pub upie : ℕ → ℕ
upie w = field w 4 1

abbrev pub set_upie : ℕ → ℕ → ℕ
set_upie v w = set_field w 4 1 v

abbrev pub spie : ℕ → ℕ
spie w = field w 5 1

abbrev pub set_spie : ℕ → ℕ → ℕ
set_spie v w = set_field w 5 1 v

abbrev pub mpie : ℕ → ℕ
mpie w = field w 7 1

abbrev pub set_mpie : ℕ → ℕ → ℕ
set_mpie v w = set_field w 7 1 v

abbrev pub spp : ℕ → ℕ
spp w = field w 8 1

abbrev pub set_spp : ℕ → ℕ → ℕ
set_spp v w = set_field w 8 1 v

abbrev pub mpp : ℕ → ℕ
mpp w = field w 11 2

abbrev pub set_mpp : ℕ → ℕ → ℕ
set_mpp v w = set_field w 11 2 v

abbrev pub fs : ℕ → ℕ
fs w = field w 13 2

abbrev pub set_fs : ℕ → ℕ → ℕ
set_fs v w = set_field w 13 2 v

abbrev pub mprv : ℕ → ℕ
mprv w = field w 17 1

abbrev pub set_mprv : ℕ → ℕ → ℕ
set_mprv v w = set_field w 17 1 v

abbrev pub sum : ℕ → ℕ
sum w = field w 18 1

abbrev pub set_sum : ℕ → ℕ → ℕ
set_sum v w = set_field w 18 1 v

abbrev pub mxr : ℕ → ℕ
mxr w = field w 19 1

abbrev pub set_mxr : ℕ → ℕ → ℕ
set_mxr v w = set_field w 19 1 v

abbrev pub tvm : ℕ → ℕ
tvm w = field w 20 1

abbrev pub set_tvm : ℕ → ℕ → ℕ
set_tvm v w = set_field w 20 1 v

abbrev pub tw : ℕ → ℕ
tw w = field w 21 1

abbrev pub set_tw : ℕ → ℕ → ℕ
set_tw v w = set_field w 21 1 v

abbrev pub tsr : ℕ → ℕ
tsr w = field w 22 1

abbrev pub set_tsr : ℕ → ℕ → ℕ
set_tsr v w = set_field w 22 1 v

abbrev pub sd : ℕ → ℕ
sd w = field w 63 1

abbrev pub set_sd : ℕ → ℕ → ℕ
set_sd v w = set_field w 63 1 v
