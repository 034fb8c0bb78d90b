-- ===== src/Rvm/Word.antt =====
-- The divisions of 32-bit words.
use nemu.Base.{ℕ, ◌^◌, ◌≡◌, refl, arith, false}
use nemu.Base.{◌==◌}
use nemu.Rvm.{div, rem, divw, remw, c_sext32to64}

-- The two guards against an overflow, on sign-extended words: neither ever holds.
guard_w : (a : ℕ) → (c_sext32to64 a == 0x80000000) ≡ false
unfolding c_sext32to64
guard_w a = ground arith

guard_d : (a : ℕ) → (c_sext32to64 a == 2 ^ 63) ≡ false
unfolding c_sext32to64
guard_d a = ground arith

-- divw is the 64-bit division of the sign-extended operands, truncated and sign-extended again.
pub divw-div : (a b : ℕ) → divw a b ≡ c_sext32to64 (div (c_sext32to64 a) (c_sext32to64 b))
unfolding divw div
divw-div a b = rw (guard_w a, guard_d a) refl

-- remw is the 64-bit remainder of the sign-extended operands, truncated and sign-extended again.
pub remw-rem : (a b : ℕ) → remw a b ≡ c_sext32to64 (rem (c_sext32to64 a) (c_sext32to64 b))
unfolding remw rem
remw-rem a b = rw (guard_w a, guard_d a) refl
