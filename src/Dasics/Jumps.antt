-- ===== src/Dasics/Jumps.antt =====
-- The loop over the jump bounds decides whether some valid bound holds the address.
use nemu.Base.{ℕ, zero, suc, ◌+◌, ◌%◌, ◌≤◌, ◌<◌, ◌≡◌, refl, ◌↔◌, inl, inr, arith}
use nemu.Base.{true, Bool-cases, bit_xor, ◌==◌}
use nemu.Bits.Pack.{bit_and_mask}
use nemu.Machine.{Machine}
use nemu.Dasics.{has_cfg, jump_hit, match_djumpbound_loop, dasics_match_djumpbound, jumpcfg_v}
use nemu.Dasics.{dasics_jumpcfg_from_index, dasics_jumpbound_low_from_index}
use nemu.Dasics.{dasics_jumpbound_high_from_index}

-- Jump bound `i` is valid and holds the address.
pub record JumpGrants (addr i : ℕ) (s : Machine) : Type 0 where
  pub valid : dasics_jumpcfg_from_index i s % 2 ≡ 1
  pub above : dasics_jumpbound_low_from_index i s ≤ addr
  pub below : addr < dasics_jumpbound_high_from_index i s

-- The free zone: some of the four jump bounds holds the address.
abbrev pub InFreeZone : ℕ → Machine → Type 0
InFreeZone addr s = (i : ℕ) × (i < 4) × JumpGrants addr i s

xor_one_iff : (r : ℕ) → r < 2 → ((bit_xor r 1 == 0) ≡ true) ↔ (r ≡ 1)
xor_one_iff zero h = ground arith
xor_one_iff (suc zero) h = (λ _. refl, λ _. refl)
xor_one_iff (suc (suc r)) h = absurd (omega arith)

has_jumpcfg_iff : (c : ℕ) → (has_cfg c jumpcfg_v ≡ true) ↔ (c % 2 ≡ 1)
unfolding has_cfg
has_jumpcfg_iff c = rw (bit_and_mask 1 c) (xor_one_iff (c % 2) (omega arith))

jump_hit_iff :
    (addr i : ℕ) (s : Machine) → (jump_hit addr jumpcfg_v i s ≡ true) ↔ JumpGrants addr i s
unfolding jump_hit
jump_hit_iff addr i s =
    let c = has_jumpcfg_iff (dasics_jumpcfg_from_index i s) in
    (
      λ h. record { valid = ground (arith, c); above = ground arith; below = ground arith },
      λ g. ground (arith, c, g.valid, g.above, g.below),
    )

loop_sound :
    (addr left i : ℕ) (s : Machine)
    → match_djumpbound_loop left i addr jumpcfg_v s ≡ true
    → (j : ℕ) × (i ≤ j) × (j < i + left) × JumpGrants addr j s
unfolding match_djumpbound_loop
loop_sound addr zero i s h = cc
loop_sound addr (suc left) i s h = elim (Bool-cases (jump_hit addr jumpcfg_v i s)) [
  | inl y ↦ (i, omega arith, omega arith, (jump_hit_iff addr i s).0 y)
  | inr n ↦
      let (j, lo, hi, g) = loop_sound addr left (i + 1) s (rw n at h) in
      (j, omega arith, omega arith, g)
]

loop_complete :
    (addr left i j : ℕ) (s : Machine)
    → i ≤ j
    → j < i + left
    → JumpGrants addr j s
    → match_djumpbound_loop left i addr jumpcfg_v s ≡ true
unfolding match_djumpbound_loop
loop_complete addr zero i j s lo hi g = absurd (omega arith)
loop_complete addr (suc left) i j s lo hi g = elim (Bool-cases (jump_hit addr jumpcfg_v i s)) [
  | inl y ↦ rw y
  | inr n ↦
      let later : i + 1 ≤ j = ground (arith, λ (e : i ≡ j). (jump_hit_iff addr j s).1 g) in
      rw n (loop_complete addr left (i + 1) j s later (omega arith) g)
]

-- An address passes exactly when one of the four jump bounds is valid and holds it.
pub dasics_match_djumpbound_iff :
    (addr : ℕ) (s : Machine) → (dasics_match_djumpbound addr jumpcfg_v s ≡ true) ↔ InFreeZone addr s
unfolding dasics_match_djumpbound
dasics_match_djumpbound_iff addr s = (
  λ h. let (j, lo, hi, g) = loop_sound addr 4 0 s h in (j, omega arith, g),
  λ (j, hi, g). loop_complete addr 4 0 j s (omega arith) (omega arith) g,
)
