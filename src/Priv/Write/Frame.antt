-- ===== src/Priv/Write/Frame.antt =====
-- What a write to one register leaves alone, and what reads give back afterwards.
use mathlib.Core.Logic.{◌≢◌}
use nemu.Base.{ℕ, ◌*◌, ◌/◌, ◌%◌, ◌^◌, ◌≤◌, ◌<◌, ◌≡◌, refl, arith, true}
use nemu.Base.{if◌then◌else◌, ◌==◌, field, bit_and, ◌||◌, not64}
use nemu.Bits.{test_bit}
use nemu.Bits.Mask.{mask_bitset_inside, mask_bitset_outside}
use nemu.Bits.Pack.{bit_and_align8}
use nemu.Machine.{Machine, ok, panicked, set_csr}
use nemu.Machine.Csr
use nemu.Machine.Csr.Mstatus
use nemu.Machine.Csr.Dsmcfg
use nemu.Priv.Write.{store_csr, after_store, csr_write, is_mem_bound, is_jump_bound}
use nemu.Priv.Write.{fp_set_dirty, fp_update_rm_cache}
use nemu.Priv.Read.{at, update_mstatus_sd}

-- A write through dumcfg, the user window of dsmcfg: it returns, the bits of DUMCFG_MASK are taken
-- from the value, all other bits of dsmcfg keep their value, and so does every other register.
pub record DumcfgWrite (src : ℕ) (s : Machine) : Type 0 where
  pub after : Machine
  pub returns : csr_write (at Csr.dumcfg) src s ≡ ok tt after
  pub inside :
      (i : ℕ)
      → i < 64
      → test_bit Dsmcfg.dumcfg_mask i ≡ 1
      → test_bit (after.csr_array Csr.dsmcfg) i ≡ test_bit src i
  pub outside :
      (i : ℕ)
      → i < 64
      → test_bit Dsmcfg.dumcfg_mask i ≡ 0
      → test_bit (after.csr_array Csr.dsmcfg) i ≡ test_bit (s.csr_array Csr.dsmcfg) i
  pub others : (a : ℕ) → a ≢ Csr.dsmcfg → after.csr_array a ≡ s.csr_array a

-- A write through dumcfg returns: the bits of DUMCFG_MASK in dsmcfg are taken from the value, its
-- other bits and all other registers keep theirs.
pub csr_write-DumcfgWrite : (src : ℕ) (s : Machine) → DumcfgWrite src s
unfolding csr_write store_csr after_store
csr_write-DumcfgWrite src s = record {
  after = _;
  returns = refl;
  inside = λ i lt h. mask_bitset_inside _ Dsmcfg.dumcfg_mask src i (omega arith) lt h;
  outside = λ i lt h. mask_bitset_outside _ Dsmcfg.dumcfg_mask src i (omega arith) lt h;
  others = λ a h. ground arith;
}

-- What a write to a bound of untrusted code does: the value is rounded down to a multiple of eight,
-- and no other register changes.
pub record BoundWrite (a src : ℕ) (s : Machine) : Type 0 where
  pub after : Machine
  pub returns : csr_write (at a) src s ≡ ok tt after
  pub rounded : after.csr_array a ≡ src / 8 * 8
  pub others : (b : ℕ) → b ≢ a → after.csr_array b ≡ s.csr_array b

store_csr_bound :
    (a src : ℕ) (s : Machine)
    → (is_mem_bound a || is_jump_bound a) ≡ true
    → store_csr a src s ≡ ok tt (set_csr a (bit_and src (not64 7)) s)
unfolding store_csr
store_csr_bound a src s h = ground arith

after_store_bound :
    (a : ℕ) (s : Machine) → (is_mem_bound a || is_jump_bound a) ≡ true → after_store a s ≡ ok tt s
unfolding after_store
after_store_bound a s h = ground arith

-- A write of a 64-bit value to a bound of untrusted code returns, rounds the value down to a
-- multiple of eight, and changes no other register.
pub csr_write-BoundWrite :
    (a src : ℕ) (s : Machine)
    → (is_mem_bound a || is_jump_bound a) ≡ true
    → src < 2 ^ 64
    → BoundWrite a src s
unfolding csr_write
csr_write-BoundWrite a src s h lt = record {
  after = set_csr a (bit_and src (not64 7)) s;
  returns = rw (store_csr_bound a src s h) (after_store_bound a _ h);
  rounded = ground (arith, bit_and_align8 src lt);
  others = λ b ne. ground arith;
}

-- What a write to fcsr leaves behind: the three registers agree, the rounding mode is cached, and
-- the floating-point state is dirty.
pub record FcsrWrite (src : ℕ) (s : Machine) : Type 0 where
  pub after : Machine
  pub returns : csr_write (at Csr.fcsr) src s ≡ ok tt after
  pub joined : after.csr_array Csr.fcsr ≡ src % 256
  pub rounding : after.csr_array Csr.frm ≡ src / 32 % 8
  pub flags : after.csr_array Csr.fflags ≡ src % 32
  pub cached : after.rm_cache ≡ src / 32 % 8

abbrev fcsr_stored : ℕ → Machine → Machine
fcsr_stored src s =
    set_csr Csr.frm (src / 32 % 8) (set_csr Csr.fflags (src % 32) (set_csr Csr.fcsr (src % 256) s))

abbrev fcsr_dirty : ℕ → Machine → Machine
fcsr_dirty src s =
    let t = fcsr_stored src s in
    record (set_csr Csr.mstatus (Mstatus.set_fs 3 (t.csr_array Csr.mstatus)) t) {
      rm_cache = field (src % 256) 5 3;
    }

abbrev fcsr_after : ℕ → Machine → Machine
fcsr_after src s =
    let t = fcsr_dirty src s in
    let w = t.csr_array Csr.mstatus in
    set_csr Csr.mstatus (Mstatus.set_sd (if Mstatus.fs w == 3 then 1 else 0) w) t

-- A write to fcsr with a rounding mode below 5 returns: fcsr, frm and fflags agree with the value,
-- and the rounding mode is cached.
pub csr_write-FcsrWrite : (src : ℕ) (s : Machine) → src / 32 % 8 < 5 → FcsrWrite src s
unfolding csr_write store_csr after_store fp_set_dirty fp_update_rm_cache update_mstatus_sd
csr_write-FcsrWrite src s h = record {
  after = fcsr_after src s;
  returns = ground arith;
  joined = refl;
  rounding = refl;
  flags = refl;
  cached = omega arith;
}

-- A write to fcsr with a rounding mode that the architecture reserves (5, 6 or 7) stops the
-- emulator, whatever the state.
pub csr_write_reserved_rounding :
    (src : ℕ) (s : Machine) → 5 ≤ src / 32 % 8 → csr_write (at Csr.fcsr) src s ≡ panicked
unfolding csr_write store_csr after_store fp_set_dirty fp_update_rm_cache
csr_write_reserved_rounding src s h = ground arith
