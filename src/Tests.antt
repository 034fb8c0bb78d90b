-- ===== src/Tests.antt =====
-- Concrete states, at which the theorems are applied by the child modules.
pub mod Trap
pub mod Watchpoint
pub mod Dasics
pub mod Priv
pub mod Memory
pub mod Mmu
pub mod Table
pub mod Rvm
pub mod Rvi
pub mod Expr
pub mod Pattern
pub mod Instr
pub mod Cpu
pub mod Rvc
use nemu.Base.{ℕ, ◌+◌, ◌^◌, ◌-◌, Bool, true, false, [], ◌∷◌, List, if◌then◌else◌, ◌==◌}
use nemu.Machine.{Machine, Guide, IoMap, set_csr, update}
use nemu.Machine.Csr
use nemu.Priv.Write.{no_entry}

abbrev pub no_guide : Guide
no_guide = record {
  guided_exec = false;
  force_raise_exception = false;
  exception_num = 0;
  mtval = 0;
  stval = 0;
  last_addr = λ _. 0;
  force_count = λ _. 0;
}

-- After reset, in machine mode with all registers zero.
abbrev pub reset : Machine
reset = record {
  csr_array = λ _. 0;
  csr_perf = 0;
  gpr = λ _. 0;
  pc = 0x80000000;
  mode = 3;
  amo = false;
  lr_addr = 0;
  lr_valid = 0;
  ifetch_mmu_state = 0;
  data_mmu_state = 0;
  sys_state_flag = 0;
  hostrtlb = λ _. no_entry;
  hostwtlb = λ _. no_entry;
  rm_cache = 0;
  pmem = λ _. 0;
  maps = [];
  guide = no_guide;
  clint_mtime = 0;
  clint_mtimecmp = 0;
  boot_time = 0;
  host_time = 0;
}

-- In user mode, with DASICS on and a trusted zone from 0x1000 to 0x2000; bound 0 lets untrusted code
-- read and write from 0x80001000 to 0x80002000.
abbrev pub sandbox : Machine
sandbox = record reset {
  mode = 0;
  csr_array = λ a.
      if a == Csr.dsmcfg
      then 2
      else if a == Csr.dumbound0
      then 0x1000
      else if a == Csr.dumbound1
      then 0x2000
      else if a == Csr.dlcfg0
      then 0xb
      else if a == Csr.dlbound0
      then 0x80001000
      else if a == Csr.dlbound0 + 1
      then 0x80002000
      else 0;
}
