-- ===== src/Dasics/Bounds.antt =====
-- The loops over the bounds decide whether some valid bound with the permission holds the address.
use nemu.Base.{
  every_below, every_below_lem, ℕ, zero, suc, ◌+◌, ◌*◌, ◌≤◌, ◌<◌, ◌≡◌, refl, ◌↔◌, inl, inr, arith,
  Bool,
}
use nemu.Base.{true, false, ◌&&◌, Bool-cases, if◌then◌else◌, ◌==◌}
use nemu.Bits.{test_bit}
use nemu.Machine.{Machine}
use nemu.Dasics.{has_cfg, lib_hit, match_dlib_loop, dasics_match_dlib, dasics_libcfg_from_index}
use nemu.Dasics.{dasics_libbound_from_index}

pub data Access : Type 0 where
  load store : Access

-- The bit of a bound's configuration that permits the access.
abbrev pub perm_bit : Access → ℕ
perm_bit load = 1
perm_bit store = 0

abbrev pub cfg_of : Access → ℕ
cfg_of load = 10
cfg_of store = 9

-- Bound `i` is valid, permits the access, and holds the address.
pub record LibGrants (a : Access) (addr i : ℕ) (s : Machine) : Type 0 where
  pub valid : test_bit (dasics_libcfg_from_index i s) 3 ≡ 1
  pub permits : test_bit (dasics_libcfg_from_index i s) (perm_bit a) ≡ 1
  pub above : dasics_libbound_from_index (i * 2) s ≤ addr
  pub below : addr < dasics_libbound_from_index (i * 2 + 1) s

-- Some of the 16 bounds grants the access.
abbrev pub LibCovers : Access → ℕ → Machine → Type 0
LibCovers a addr s = (i : ℕ) × (i < 16) × LibGrants a addr i s

-- For each of the 16 values of a configuration, the test against `V | R` or `V | W`.
agrees : Access → ℕ → Bool
agrees a c =
    let both = (test_bit c 3 == 1) && (test_bit c (perm_bit a) == 1) in
    if has_cfg c (cfg_of a) then both else (if both then false else true)

agrees_all : (a : Access) → every_below (agrees a) 16 ≡ true
unfolding every_below agrees has_cfg
agrees_all load = refl
agrees_all store = refl

has_cfg_iff :
    (a : Access) (c : ℕ)
    → c < 16
    → (has_cfg c (cfg_of a) ≡ true) ↔ ((test_bit c 3 ≡ 1) × (test_bit c (perm_bit a) ≡ 1))
unfolding agrees
has_cfg_iff a c h = ground (arith, every_below_lem (agrees a) 16 (agrees_all a) c h)

libcfg-lt : (i : ℕ) (s : Machine) → dasics_libcfg_from_index i s < 16
unfolding dasics_libcfg_from_index
libcfg-lt i s = omega arith

lib_hit_iff :
    (a : Access) (addr i : ℕ) (s : Machine)
    → (lib_hit addr (cfg_of a) i s ≡ true) ↔ LibGrants a addr i s
unfolding lib_hit
lib_hit_iff a addr i s =
    let c = has_cfg_iff a (dasics_libcfg_from_index i s) (libcfg-lt i s) in
    (
      λ h. record {
        valid = ground (arith, c);
        permits = ground (arith, c);
        above = ground arith;
        below = ground arith;
      },
      λ g. ground (arith, c, g.valid, g.permits, g.above, g.below),
    )

match_dlib_loop_sound :
    (a : Access) (addr left i : ℕ) (s : Machine)
    → match_dlib_loop left i addr (cfg_of a) s ≡ true
    → (j : ℕ) × (i ≤ j) × (j < i + left) × LibGrants a addr j s
unfolding match_dlib_loop
match_dlib_loop_sound a addr zero i s h = cc
match_dlib_loop_sound a addr (suc left) i s h = elim (Bool-cases (lib_hit addr (cfg_of a) i s)) [
  | inl y ↦ (i, omega arith, omega arith, (lib_hit_iff a addr i s).0 y)
  | inr n ↦
      let (j, lo, hi, g) = match_dlib_loop_sound a addr left (i + 1) s (rw n at h) in
      (j, omega arith, omega arith, g)
]

match_dlib_loop_complete :
    (a : Access) (addr left i j : ℕ) (s : Machine)
    → i ≤ j
    → j < i + left
    → LibGrants a addr j s
    → match_dlib_loop left i addr (cfg_of a) s ≡ true
unfolding match_dlib_loop
match_dlib_loop_complete a addr zero i j s lo hi g = absurd (omega arith)
match_dlib_loop_complete a addr (suc left) i j s lo hi g =
    elim (Bool-cases (lib_hit addr (cfg_of a) i s)) [
      | inl y ↦ rw y
      | inr n ↦
          let later : i + 1 ≤ j = ground (arith, λ (e : i ≡ j). (lib_hit_iff a addr j s).1 g) in
          rw n (match_dlib_loop_complete a addr left (i + 1) j s later (omega arith) g)
    ]

-- An address passes exactly when one of the 16 bounds is valid, has the permission asked for, and
-- holds the address (its end excluded).
pub dasics_match_dlib_iff :
    (a : Access) (addr : ℕ) (s : Machine)
    → (dasics_match_dlib addr (cfg_of a) s ≡ true) ↔ LibCovers a addr s
unfolding dasics_match_dlib
dasics_match_dlib_iff a addr s = (
  λ h. let (j, lo, hi, g) = match_dlib_loop_sound a addr 16 0 s h in (j, omega arith, g),
  λ (j, hi, g). match_dlib_loop_complete a addr 16 0 j s (omega arith) (omega arith) g,
)
