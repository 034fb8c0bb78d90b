-- ===== src/Memory/Host.antt =====
-- host_read and host_write of include/memory/host.h, on a little-endian host, and the bytes they
-- touch.
use native.Mathlib.Nat.{mod-eq-sub-mul-div, div-div-eq-div-mul, mul_assoc, div-add-mod}
use nemu.Bits.Pack.{pow_add8}
use nemu.Base.{ℕ, zero, suc, ◌+◌, ◌*◌, ◌/◌, ◌%◌, ◌^◌, ◌≤◌, ◌<◌, ◌≡◌, refl, ◌⊎◌, arith, Bool}
use nemu.Base.{◌||◌, if◌then◌else◌, ◌==◌, Option, none, some, ◌∙◌, ap}
use nemu.Machine.{update}

-- The number in the `n` bytes from `a` on.
unfoldable pub load_bytes : ℕ → (ℕ → ℕ) → ℕ → ℕ
load_bytes zero mem a = 0
load_bytes (suc n) mem a = mem a + 256 * load_bytes n mem (a + 1)

unfoldable pub store_bytes : ℕ → (ℕ → ℕ) → ℕ → ℕ → ℕ → ℕ
store_bytes zero mem a value = mem
store_bytes (suc n) mem a value = store_bytes n (update mem a (value % 256)) (a + 1) (value / 256)

abbrev pub is_access_len : ℕ → Bool
is_access_len len = (len == 1) || (len == 2) || (len == 4) || (len == 8)

-- `none` where the code fails an assertion.
unfoldable pub host_read : (ℕ → ℕ) → ℕ → ℕ → Option ℕ
host_read mem addr len = if is_access_len len then some (load_bytes len mem addr) else none

unfoldable pub host_write : (ℕ → ℕ) → ℕ → ℕ → ℕ → Option (ℕ → ℕ)
host_write mem addr len value =
    if is_access_len len then some (store_bytes len mem addr value) else none

-- A byte array.
pub IsBytes : (ℕ → ℕ) → Type 0
IsBytes mem = (a : ℕ) → mem a < 256

pub store_bytes-outside :
    (n : ℕ) (mem : ℕ → ℕ) (a value b : ℕ)
    → (b < a) ⊎ (a + n ≤ b)
    → store_bytes n mem a value b ≡ mem b
unfolding store_bytes
store_bytes-outside zero mem a value b h = refl
store_bytes-outside (suc n) mem a value b h =
    store_bytes-outside n (update mem a (value % 256)) (a + 1) (value / 256) b (omega arith)
    ∙ ground arith

-- The lowest byte and the rest.
mod_bytes : (v p : ℕ) → v % (256 * p) ≡ v % 256 + 256 * (v / 256 % p)
mod_bytes v p = omega (
  arith,
  mod-eq-sub-mul-div v (256 * p),
  div-div-eq-div-mul v 256 p,
  mod-eq-sub-mul-div (v / 256) p,
  mul_assoc 256 p (v / (256 * p)),
  ap (λ (q : ℕ). p * q) (div-div-eq-div-mul v 256 p),
  div-mul-le p (v / 256),
)
  where
    div-mul-le : (p w : ℕ) → p * (w / p) ≤ w
    div-mul-le p w = omega (arith, div-add-mod w p)

-- The bytes of a store, read back, are the value truncated to the width.
pub load_bytes-store_bytes :
    (n : ℕ) (mem : ℕ → ℕ) (a value : ℕ)
    → load_bytes n (store_bytes n mem a value) a ≡ value % 2 ^ (8 * n)
unfolding load_bytes store_bytes
load_bytes-store_bytes zero mem a value = omega arith
load_bytes-store_bytes (suc n) mem a value =
    let rest : ℕ → ℕ = store_bytes n (update mem a (value % 256)) (a + 1) (value / 256) in
    low rest
      (store_bytes-outside n (update mem a (value % 256)) (a + 1) (value / 256) a (omega arith)
        ∙ ground arith)
      (load_bytes-store_bytes n (update mem a (value % 256)) (a + 1) (value / 256))
  where
    places : (n : ℕ) → 8 * suc n ≡ 8 * n + 8
    places n = omega arith

    low :
        (rest : ℕ → ℕ)
        → rest a ≡ value % 256
        → load_bytes n rest (a + 1) ≡ value / 256 % 2 ^ (8 * n)
        → rest a + 256 * load_bytes n rest (a + 1) ≡ value % 2 ^ (8 * suc n)
    low rest b h = omega (
      arith,
      b,
      h,
      mod_bytes value (2 ^ (8 * n)),
      pow_add8 (8 * n),
      ap (λ (k : ℕ). 2 ^ k) (places n),
      ap (λ (k : ℕ). value % k) (ap (λ (k : ℕ). 2 ^ k) (places n) ∙ pow_add8 (8 * n)),
    )

pub store_bytes-IsBytes :
    (n : ℕ) (mem : ℕ → ℕ) (a value : ℕ) → IsBytes mem → IsBytes (store_bytes n mem a value)
unfolding store_bytes IsBytes
store_bytes-IsBytes zero mem a value h = h
store_bytes-IsBytes (suc n) mem a value h =
    store_bytes-IsBytes n (update mem a (value % 256)) (a + 1) (value / 256)
      (λ b. ground (arith, h b))

pub load_bytes-lt : (n : ℕ) (mem : ℕ → ℕ) (a : ℕ) → IsBytes mem → load_bytes n mem a < 2 ^ (8 * n)
unfolding load_bytes IsBytes
load_bytes-lt zero mem a h = omega arith
load_bytes-lt (suc n) mem a h =
    omega (
      arith,
      h a,
      load_bytes-lt n mem (a + 1) h,
      pow_add8 (8 * n),
      ap (λ (k : ℕ). 2 ^ k) (places n),
    )
  where
    places : (n : ℕ) → 8 * suc n ≡ 8 * n + 8
    places n = omega arith

-- Two arrays that agree on the bytes of an access read alike.
pub load_bytes-agree :
    (n : ℕ) (mem other : ℕ → ℕ) (a : ℕ)
    → ((b : ℕ) → a ≤ b → b < a + n → mem b ≡ other b)
    → load_bytes n mem a ≡ load_bytes n other a
unfolding load_bytes
load_bytes-agree zero mem other a h = refl
load_bytes-agree (suc n) mem other a h = omega (
  arith,
  h a (omega arith) (omega arith),
  load_bytes-agree n mem other (a + 1) (λ b le lt. h b (omega arith) (omega arith)),
)
