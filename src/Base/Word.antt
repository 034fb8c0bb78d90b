-- ===== src/Base/Word.antt =====
-- 64-bit words as native numbers below 2 ^ 64: wrap-around, shifts, masks and bit fields.
use Prim.Native.Nat.{ℕ, ◌+◌, ◌-◌, ◌*◌, ◌/◌, ◌%◌, ◌^◌}

abbrev pub u64 : ℕ → ℕ
u64 n = n % 2 ^ 64

abbrev pub u32 : ℕ → ℕ
u32 n = n % 2 ^ 32

-- `~m` of a word.
abbrev pub not64 : ℕ → ℕ
not64 m = 2 ^ 64 - 1 - m

-- `x >> k`, and `x << k` where the bits above the word are lost.
abbrev pub shr : ℕ → ℕ → ℕ
shr x k = x / 2 ^ k

abbrev pub shl64 : ℕ → ℕ → ℕ
shl64 x k = x * 2 ^ k % 2 ^ 64

-- A bit field of `len` bits that starts at bit `lo`, read and written.
abbrev pub field : ℕ → ℕ → ℕ → ℕ
field w lo len = w / 2 ^ lo % 2 ^ len

abbrev pub set_field : ℕ → ℕ → ℕ → ℕ → ℕ
set_field w lo len v = w / 2 ^ (lo + len) * 2 ^ (lo + len) + v % 2 ^ len * 2 ^ lo + w % 2 ^ lo
