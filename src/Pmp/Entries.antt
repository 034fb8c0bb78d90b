-- ===== src/Pmp/Entries.antt =====
-- What one entry says of an access: the sectors that it holds, and the permission that it grants.
use nemu.Base.{ℕ, zero, suc, ◌+◌, ◌*◌, ◌/◌, ◌%◌, ◌^◌, ◌≤◌, ◌<◌, ◌≡◌, ◌≢◌, ◌⊎◌}
use nemu.Base.{Bool, true, false, if◌then◌else◌, ltb}
use nemu.Base.{shl64, bit_and, ◌↔◌, field, u64, Option, none, some}
use nemu.Bits.Trailing.{Ones}
use nemu.Machine.{Machine, MemType, write, ifetch}
use nemu.Pmp.{pmpaddr_from_index, pmp_tor_mask}

-- The lower end of entry `i` as a top-of-range entry: the address of the entry below it.
unfoldable pub entry_base : ℕ → Machine → ℕ
entry_base zero s = 0
entry_base (suc i) s = shl64 (bit_and (pmpaddr_from_index i s) pmp_tor_mask) 2

-- The configuration byte of an entry, eight to a register.
abbrev pub config : ℕ → Machine → ℕ
config i s = field (s.csr_array (if ltb i 8 then 0x3a0 else 0x3a2)) (8 * (i % 8)) 8

-- Off, top of range, four bytes or a naturally aligned power of two.
abbrev pub matching : ℕ → Machine → ℕ
matching i s = field (config i s) 3 2

abbrev pub address : ℕ → Machine → ℕ
address i s = s.csr_array (0x3b0 + i)

-- The byte address of an entry, at the granularity of 4096 bytes.
abbrev pub top : ℕ → Machine → ℕ
top i s = u64 (address i s / 2 ^ 10 * 2 ^ 12)

abbrev pub bottom : ℕ → Machine → ℕ
bottom zero s = 0
bottom (suc i) s = top i s

-- The address lies in the entry. A naturally aligned entry has 4096 bytes, twice as many for each one that
-- its address register has in a row from bit 9 on.
pub data Inside (i : ℕ) (s : Machine) (a : ℕ) : Type 0 where
  top_of_range : matching i s ≡ 1 → bottom i s ≤ a → a < top i s → Inside i s a
  naturally_aligned :
      (k : ℕ)
      → matching i s ≢ 1
      → Ones 54 (field (address i s) 9 54) k
      → a / 2 ^ (12 + k) ≡ top i s / 2 ^ (12 + k)
      → Inside i s a

-- The permission bit of an access: R, W or X.
abbrev pub needed : MemType → ℕ
needed ifetch = 2
needed write = 1
needed _ = 0

-- Machine mode passes an entry that is not locked; all else needs the permission bit.
abbrev pub Grants : ℕ → MemType → ℕ → Type 0
Grants cfg type mode = ((mode ≡ 3) × (field cfg 7 1 ≡ 0)) ⊎ (field cfg (needed type) 1 ≡ 1)

module _ (addr len : ℕ) (type : MemType) (mode : ℕ) (s : Machine) where
  -- Sector `k` of the access.
  abbrev sector : ℕ → ℕ
  sector k = u64 (addr + k * 4)

  abbrev sectors : ℕ
  sectors = (len + 3) / 4

  abbrev pub Some : ℕ → Type 0
  Some i = (k : ℕ) × (k < sectors) × Inside i s (sector k)

  abbrev pub Every : ℕ → Type 0
  Every i = (k : ℕ) → k < sectors → Inside i s (sector k)

  -- What entry `i` says: nothing, where it is off or holds no sector; no, where it holds some but not all;
  -- else what it grants.
  pub data Says (i : ℕ) : Option Bool → Type 0 where
    off : matching i s ≡ 0 → Says i none
    outside : ¬ (Some i) → Says i none
    partial : matching i s ≢ 0 → Some i → ¬ (Every i) → Says i (some false)
    whole :
        {b : Bool}
        → matching i s ≢ 0
        → Some i
        → Every i
        → (b ≡ true) ↔ Grants (config i s) type mode
        → Says i (some b)
