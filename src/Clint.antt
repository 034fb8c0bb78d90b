-- ===== src/Clint.antt =====
-- The core-local timer (isa/riscv64/clint.c), not in deterministic mode.
use nemu.Base.{ℕ, ◌+◌, ◌-◌, ◌*◌, ◌/◌, ◌^◌, leb, if◌then◌else◌, u64, set_field}
use nemu.Machine.{M, ok, ◌>>=◌, ◌>>◌, set_csr, get, pure}
use nemu.Machine.Csr

abbrev pub timebase : ℕ
timebase = 10000000

unfoldable pub update_clint : M (Unit {0})
update_clint s =
    let now = u64 (s.host_time + 2 ^ 64 - s.boot_time) in
    let mtime = u64 (timebase * now) / 1000000 in
    let mtip = if leb s.clint_mtimecmp mtime then 1 else 0 in
    ok tt (
      set_csr Csr.mip (set_field (s.csr_array Csr.mip) 7 1 mtip) (record s { clint_mtime = mtime }))

unfoldable pub clint_uptime : M ℕ
clint_uptime = do update_clint; s ← get; pure s.clint_mtime
