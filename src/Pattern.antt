-- ===== src/Pattern.antt =====
-- The patterns of instructions (include/cpu/decode.h): pattern_decode turns the text of a pattern into a
-- key, a mask and a shift, and def_INSTR_raw tests an instruction with them.
pub mod Matches
pub mod Fields
use nemu.Base.{ℕ, zero, suc, ◌+◌, ◌*◌, ◌/◌, ◌^◌, Bool, true, false, ◌||◌, ◌==◌, if◌then◌else◌}
use nemu.Base.{Option, none, some, List, [], ◌∷◌, u32, bit_and}

abbrev pub space : ℕ
space = 32

abbrev pub zero_char : ℕ
zero_char = 48

abbrev pub one_char : ℕ
one_char = 49

abbrev pub any_char : ℕ
any_char = 63

pub record Pattern : Type 0 where
  pub key : ℕ
  pub mask : ℕ
  pub shift : ℕ

-- `macro` for one character that is not a space and passes the assertion.
unfoldable pub step : ℕ → Pattern → Pattern
step c p = record {
  key = u32 (p.key * 2) + (if c == one_char then 1 else 0);
  mask = u32 (p.mask * 2) + (if c == any_char then 0 else 1);
  shift = if c == any_char then p.shift + 1 else 0;
}

abbrev pub is_pattern_char : ℕ → Bool
is_pattern_char c = (c == zero_char) || (c == one_char) || (c == any_char)

-- `macro64`, with `left` characters to go; `none` is the failed assertion.
unfoldable pub decode_loop : ℕ → List ℕ → Pattern → Option Pattern
decode_loop zero str p = some p
decode_loop (suc left) [] p = some p
decode_loop (suc left) (c ∷ str) p =
    let skipped = decode_loop left str p in
    let taken = decode_loop left str (step c p) in
    if c == space then skipped else if is_pattern_char c then taken else none

-- The label `finish`.
unfoldable pub finish : Pattern → Pattern
finish p = record { key = p.key / 2 ^ p.shift; mask = p.mask / 2 ^ p.shift; shift = p.shift }

unfoldable pub pattern_decode : List ℕ → Option Pattern
pattern_decode str = elim (decode_loop 64 str record { key = 0; mask = 0; shift = 0 }) [
  | none ↦ none
  | some p ↦ some (finish p)
]

-- The test of def_INSTR_raw.
unfoldable pub is_instr : Pattern → ℕ → Bool
is_instr p instr = bit_and (instr / 2 ^ p.shift) p.mask == p.key

-- def_INSTR_raw on a pattern and an instruction.
unfoldable pub matches : List ℕ → ℕ → Bool
matches str instr = elim (pattern_decode str) [ none ↦ false | some p ↦ is_instr p instr ]
