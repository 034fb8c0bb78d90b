-- ===== src/Pmp/Verdicts.antt =====
-- The code's test of one entry decides what the entry says.
use Prim.Native.Nat.{bit_xor}
use nemu.Base.{ℕ, zero, suc, ◌+◌, ◌*◌, ◌/◌, ◌%◌, ◌^◌, ◌<◌, ◌≡◌, refl, inl, inr}
use nemu.Base.{arith, Bool, true, false, not, ◌&&◌, Bool-cases, if◌then◌else◌, ◌==◌, ◌!=◌, ltb, leb}
use nemu.Base.{shl64, bit_and, ◌∙◌, ap, ◌↔◌, field, u64, none, some}
use nemu.Bits.Trailing.{Ones, some-Ones}
use nemu.Bits.Above.{bit_and_above, agree_above}
use nemu.Bits.Pack.{has_bit}
use nemu.Machine.{Machine, MemType, write, ifetch}
use nemu.Machine.Csr
use nemu.Pmp.{
  Entry, entry_at, entry_verdict, pmpaddr_from_index, pmpcfg_from_index, pmp_tor_mask, pmp_grants,
  sector_match, sector_loop,
}
use nemu.Pmp.Napot.{napot_mask_lem}
use nemu.Pmp.Sectors.{HitAt, Flags, sector_loop-Flags}
use nemu.Pmp.Entries.{
  entry_base, config, matching, address, top, bottom, Inside, top_of_range, naturally_aligned,
  Grants, Some, Every, Says, off, outside, partial, whole,
}

config_lem : (i : ℕ) (s : Machine) → pmpcfg_from_index i s ≡ config i s
unfolding pmpcfg_from_index
config_lem i s =
    ap (λ (b : Bool). s.csr_array (if b then Csr.pmpcfg0 else Csr.pmpcfg2) / 2 ^ (i % 8 * 8) % 256)
      low
    ∙ ap (λ (n : ℕ). s.csr_array (if ltb i 8 then Csr.pmpcfg0 else Csr.pmpcfg2) / 2 ^ n % 256) place
  where
    low : (i / 8 == 0) ≡ ltb i 8
    low = ground arith

    place : i % 8 * 8 ≡ 8 * (i % 8)
    place = omega arith

matching_lem : (c : ℕ) → bit_and c 0x18 ≡ field c 3 2 * 8
matching_lem c = omega (arith, bit_and_above 5 3 c (omega arith))

top_lem : (i : ℕ) (s : Machine) → shl64 (bit_and (pmpaddr_from_index i s) pmp_tor_mask) 2 ≡ top i s
unfolding pmpaddr_from_index
top_lem i s = omega (arith, bit_and_above 64 10 (address i s) (omega arith))

bottom_lem : (i : ℕ) (s : Machine) → entry_base i s ≡ bottom i s
unfolding entry_base
bottom_lem zero s = refl
bottom_lem (suc i) s = top_lem i s

Grants-iff :
    (cfg : ℕ) (type : MemType) (mode : ℕ) → (pmp_grants cfg type mode ≡ true) ↔ Grants cfg type mode
unfolding pmp_grants
Grants-iff cfg ifetch mode = (
  (λ h. ground (arith, has_bit cfg 2, has_bit cfg 7)),
  (λ g. ground (arith, has_bit cfg 2, has_bit cfg 7)),
)
Grants-iff cfg write mode = (
  (λ h. ground (arith, has_bit cfg 1, has_bit cfg 7)),
  (λ g. ground (arith, has_bit cfg 1, has_bit cfg 7)),
)
Grants-iff cfg _ mode = (
  (λ h. ground (arith, has_bit cfg 0, has_bit cfg 7)),
  (λ g. ground (arith, has_bit cfg 0, has_bit cfg 7)),
)

-- The test of the code for one sector.
module _ (i : ℕ) (s : Machine) (a : ℕ) (small : a < 2 ^ 64) where
  abbrev entry : Entry
  entry = entry_at i (entry_base i s) s

  is_tor_iff : (bit_and (pmpcfg_from_index i s) 0x18 == 0x08) ≡ (matching i s == 1)
  is_tor_iff =
      ap (λ (c : ℕ). bit_and c 0x18 == 0x08) (config_lem i s)
      ∙ ground (arith, matching_lem (config i s))

  tor_match : (leb (entry_base i s) a && ltb a entry.tor) ≡ (leb (bottom i s) a && ltb a (top i s))
  unfolding entry_at
  tor_match =
      ap (λ (t : ℕ). leb t a && ltb a entry.tor) (bottom_lem i s)
      ∙ ap (λ (t : ℕ). leb (bottom i s) a && ltb a t) (top_lem i s)

  napot_match :
      (k : ℕ)
      → Ones 54 (field (address i s) 9 54) k
      → (bit_and (bit_xor a entry.tor) entry.mask ≡ 0) ↔ (a / 2 ^ (12 + k) ≡ top i s / 2 ^ (12 + k))
  unfolding entry_at pmpaddr_from_index
  napot_match k o =
      rw
        (
          top_lem i s,
          napot_mask_lem (address i s) (bit_and (pmpcfg_from_index i s) 0x18 == 0x10) k o,
        )
        (agree_above (12 + k) a (top i s) small (omega arith))

  shape : sector_match entry a ≡ (
      if matching i s == 1
      then leb (bottom i s) a && ltb a (top i s)
      else (bit_and (bit_xor a entry.tor) entry.mask == 0))
  unfolding sector_match entry_at
  shape =
      ap
        (λ (b : Bool).
          if b
          then leb (entry_base i s) a && ltb a entry.tor
          else (bit_and (bit_xor a entry.tor) entry.mask == 0))
        is_tor_iff
      ∙ ap
          (λ (b : Bool).
            if matching i s == 1 then b else (bit_and (bit_xor a entry.tor) entry.mask == 0))
          tor_match

  Inside-sound : sector_match entry a ≡ true → Inside i s a
  Inside-sound h = elim (Bool-cases (matching i s == 1)) [
    | inl y ↦ top_of_range (ground arith) (ground (arith, shape)) (ground (arith, shape))
    | inr n ↦
        let (k, o) = some-Ones 54 (field (address i s) 9 54) (omega arith) in
        naturally_aligned k (ground arith) o ((napot_match k o).0 (ground (arith, shape)))
  ]

  Inside-complete : Inside i s a → sector_match entry a ≡ true
  Inside-complete (top_of_range m le lt) = ground (arith, shape)
  Inside-complete (naturally_aligned k m o e) =
      let same = (napot_match k o).1 e in ground (arith, shape)

module _ (addr len : ℕ) (type : MemType) (mode : ℕ) (s : Machine) (i : ℕ) where
  hit_iff : (k : ℕ) → HitAt (entry_at i (entry_base i s) s) addr k ↔ Inside i s (u64 (addr + k * 4))
  unfolding HitAt
  hit_iff k = (
    Inside-sound i s (u64 (addr + k * 4)) (omega arith),
    Inside-complete i s (u64 (addr + k * 4)) (omega arith),
  )

  flags :
      Flags
        (entry_at i (entry_base i s) s)
        ((len + 3) / 4)
        addr
        (sector_loop ((len + 3) / 4) addr (entry_at i (entry_base i s) s) (false, true))
  flags = sector_loop-Flags (entry_at i (entry_base i s) s) ((len + 3) / 4) addr

  pick :
      (on any all : Bool)
      → on ≡ (matching i s != 0)
      → (any ≡ true) ↔ Some addr len type mode s i
      → (all ≡ true) ↔ Every addr len type mode s i
      → Says addr len type mode s i (
          if on && any
          then (if not all then some false else some (pmp_grants (config i s) type mode))
          else none)
  pick false any all o f g = off (ground arith)
  pick true false all o f g = outside (λ h. absurd (ground (arith, f.1 h)))
  pick true true false o f g =
      partial (ground arith) (f.0 refl) (λ h. absurd (ground (arith, g.1 h)))
  pick true true true o f g =
      whole (ground arith) (f.0 refl) (g.0 refl) (Grants-iff (config i s) type mode)

  pub entry_verdict-Says :
      Says addr len type mode s i (entry_verdict i (entry_base i s) addr len type mode s)
  unfolding entry_verdict
  entry_verdict-Says = rw (config_lem i s) (
      pick (bit_and (config i s) 0x18 != 0) _ _ (ground (arith, matching_lem (config i s)))
        (
          (λ h. let (k, lt, hit) = flags.any_match.0 h in (k, lt, (hit_iff k).0 hit)),
          (λ h. flags.any_match.1 (h.0, h.1, (hit_iff h.0).1 h.2)),
        )
        (
          (λ h k lt. (hit_iff k).0 (flags.all_match.0 h k lt)),
          (λ h. flags.all_match.1 (λ k lt. (hit_iff k).1 (h k lt))),
        ))
