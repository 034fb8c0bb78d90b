-- ===== src/Machine/Csr.antt =====
-- Addresses, bit fields and masks of the control and status registers
-- (isa/riscv64/local-include/csr.h).
pub mod Mstatus
pub mod Dsmcfg
use nemu.Base.{ℕ, zero, suc, ◌+◌, ◌/◌, ◌%◌, ◌^◌, field, Bool, true, false, ◌||◌, ◌==◌}
use nemu.Base.{List, [], ◌∷◌, ◌++◌}

abbrev pub mstatus : ℕ
mstatus = 0x300

abbrev pub misa : ℕ
misa = 0x301

abbrev pub medeleg : ℕ
medeleg = 0x302

abbrev pub mideleg : ℕ
mideleg = 0x303

abbrev pub mie : ℕ
mie = 0x304

abbrev pub mtvec : ℕ
mtvec = 0x305

abbrev pub mcounteren : ℕ
mcounteren = 0x306

abbrev pub mscratch : ℕ
mscratch = 0x340

abbrev pub mepc : ℕ
mepc = 0x341

abbrev pub mcause : ℕ
mcause = 0x342

abbrev pub mtval : ℕ
mtval = 0x343

abbrev pub mip : ℕ
mip = 0x344

abbrev pub pmpcfg0 : ℕ
pmpcfg0 = 0x3a0

abbrev pub pmpcfg2 : ℕ
pmpcfg2 = 0x3a2

abbrev pub pmpaddr0 : ℕ
pmpaddr0 = 0x3b0

abbrev pub mhartid : ℕ
mhartid = 0xf14

abbrev pub sstatus : ℕ
sstatus = 0x100

abbrev pub sie : ℕ
sie = 0x104

abbrev pub stvec : ℕ
stvec = 0x105

abbrev pub scounteren : ℕ
scounteren = 0x106

abbrev pub sscratch : ℕ
sscratch = 0x140

abbrev pub sepc : ℕ
sepc = 0x141

abbrev pub scause : ℕ
scause = 0x142

abbrev pub stval : ℕ
stval = 0x143

abbrev pub sip : ℕ
sip = 0x144

abbrev pub satp : ℕ
satp = 0x180

abbrev pub srnctl : ℕ
srnctl = 0x5c4

abbrev pub fflags : ℕ
fflags = 0x001

abbrev pub frm : ℕ
frm = 0x002

abbrev pub fcsr : ℕ
fcsr = 0x003

abbrev pub mtime : ℕ
mtime = 0xc01

abbrev pub ustatus : ℕ
ustatus = 0x000

abbrev pub uie : ℕ
uie = 0x004

abbrev pub utvec : ℕ
utvec = 0x005

abbrev pub uscratch : ℕ
uscratch = 0x040

abbrev pub uepc : ℕ
uepc = 0x041

abbrev pub ucause : ℕ
ucause = 0x042

abbrev pub utval : ℕ
utval = 0x043

abbrev pub uip : ℕ
uip = 0x044

abbrev pub utimer : ℕ
utimer = 0x045

abbrev pub sedeleg : ℕ
sedeleg = 0x102

abbrev pub sideleg : ℕ
sideleg = 0x103

abbrev pub mvendorid : ℕ
mvendorid = 0xf11

abbrev pub marchid : ℕ
marchid = 0xf12

abbrev pub mimpid : ℕ
mimpid = 0xf13

abbrev pub dsmcfg : ℕ
dsmcfg = 0xbc0

abbrev pub dsmbound0 : ℕ
dsmbound0 = 0xbc2

abbrev pub dsmbound1 : ℕ
dsmbound1 = 0xbc3

abbrev pub dumcfg : ℕ
dumcfg = 0x9e0

abbrev pub dumbound0 : ℕ
dumbound0 = 0x9e2

abbrev pub dumbound1 : ℕ
dumbound1 = 0x9e3

abbrev pub dlcfg0 : ℕ
dlcfg0 = 0x880

abbrev pub dlbound0 : ℕ
dlbound0 = 0x890

abbrev pub dmaincall : ℕ
dmaincall = 0x8b0

abbrev pub dretpc : ℕ
dretpc = 0x8b1

abbrev pub dretpcfz : ℕ
dretpcfz = 0x8b2

abbrev pub dfreason : ℕ
dfreason = 0x8b3

abbrev pub djbound0 : ℕ
djbound0 = 0x8c0

abbrev pub djcfg : ℕ
djcfg = 0x8c8

abbrev pub upkru : ℕ
upkru = 0x800

abbrev pub spkrs : ℕ
spkrs = 0x9d1

abbrev pub spkctl : ℕ
spkctl = 0x9d0

-- `f(name0) … f(name15)` for a run of consecutive addresses.
abbrev pub consecutive : ℕ → ℕ → List ℕ
consecutive first zero = []
consecutive first (suc n) = first ∷ consecutive (first + 1) n

-- The registers that init_csr marks as present: CSRS, NCSRS, ARCH_CSRS, DASICS_CSRS and MPK_CSRS.
pub csrs : List ℕ
csrs =
    mstatus
    ∷ misa
    ∷ medeleg
    ∷ mideleg
    ∷ mie
    ∷ mtvec
    ∷ mcounteren
    ∷ mscratch
    ∷ mepc
    ∷ mcause
    ∷ mtval
    ∷ mip
    ∷ pmpcfg0
    ∷ pmpcfg2
    ∷ (consecutive pmpaddr0 16
        ++ (mhartid ∷ sstatus ∷ sie ∷ stvec ∷ scounteren ∷ sscratch ∷ sepc ∷ scause ∷ stval ∷ sip
            ∷ satp ∷ srnctl ∷ fflags ∷ frm ∷ fcsr ∷ mtime ∷ []))

pub ncsrs : List ℕ
ncsrs =
    ustatus ∷ uie ∷ utvec ∷ uscratch ∷ uepc ∷ ucause ∷ utval ∷ uip ∷ utimer ∷ sedeleg ∷ sideleg ∷ []

pub arch_csrs : List ℕ
arch_csrs = mvendorid ∷ marchid ∷ mimpid ∷ []

pub dasics_csrs : List ℕ
dasics_csrs =
    dsmcfg
    ∷ dsmbound0
    ∷ dsmbound1
    ∷ dumcfg
    ∷ dumbound0
    ∷ dumbound1
    ∷ dlcfg0
    ∷ (consecutive dlbound0 32
        ++ (dmaincall ∷ dretpc ∷ dretpcfz ∷ dfreason ∷ (consecutive djbound0 8 ++ (djcfg ∷ []))))

pub mpk_csrs : List ℕ
mpk_csrs = upkru ∷ spkrs ∷ spkctl ∷ []

listed : ℕ → List ℕ → Bool
listed a [] = false
listed a (x ∷ xs) = (a == x) || listed a xs

-- csr_exist[addr] after init_csr.
unfoldable pub csr_exist : ℕ → Bool
unfolding listed csrs ncsrs arch_csrs dasics_csrs mpk_csrs
csr_exist a =
    listed a csrs
    || listed a ncsrs
    || listed a arch_csrs
    || listed a dasics_csrs
    || listed a mpk_csrs

-- Fields of satp.
abbrev pub satp_ppn : ℕ → ℕ
satp_ppn w = field w 0 44

abbrev pub satp_mode : ℕ → ℕ
satp_mode w = field w 60 4

-- Causes: exceptions of local-include/intr.h.
abbrev pub ex_iaf : ℕ
ex_iaf = 1

abbrev pub ex_ii : ℕ
ex_ii = 2

abbrev pub ex_lam : ℕ
ex_lam = 4

abbrev pub ex_laf : ℕ
ex_laf = 5

abbrev pub ex_sam : ℕ
ex_sam = 6

abbrev pub ex_saf : ℕ
ex_saf = 7

abbrev pub ex_ipf : ℕ
ex_ipf = 12

abbrev pub ex_lpf : ℕ
ex_lpf = 13

abbrev pub ex_spf : ℕ
ex_spf = 15

abbrev pub ex_ducf : ℕ
ex_ducf = 24

abbrev pub ex_dscf : ℕ
ex_dscf = 25

-- srnctl_svinval of srnctl.
abbrev pub srnctl_svinval : ℕ → ℕ
srnctl_svinval w = field w 1 1
