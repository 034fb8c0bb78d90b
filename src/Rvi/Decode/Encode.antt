-- ===== src/Rvi/Decode/Encode.antt =====
-- The formats of the architecture, and decoding what is written in them.
use nemu.Base.{
  ℕ, ◌+◌, ◌-◌, ◌*◌, ◌/◌, ◌%◌, ◌^◌, ◌<◌, ◌≤◌, ◌≡◌, refl, ◌∙◌, ap, arith, ◌==◌, if◌then◌else◌, inl,
  inr, ◌⊎◌,
}
use nemu.Base.{u64, bit_or, shl64, field}
use nemu.Bits.Pack.{bit_or-add}
use nemu.Rvi.Decode.{
  Operands, signed_field, offset_j, offset_b, offset_s, decode_i, decode_j, decode_b, decode_s,
}

-- A word that is a signed number of `n + 1` bits.
abbrev pub Fits : ℕ → ℕ → Type 0
Fits n a = (a < 2 ^ n) ⊎ ((2 ^ 64 - 2 ^ n ≤ a) × (a < 2 ^ 64))

-- The bits of an offset from `lo` on are put at `at`.
abbrev pub put : ℕ → ℕ → ℕ → ℕ → ℕ
put a lo n at = field a lo n * 2 ^ at

abbrev pub encode_b : (opcode f3 r1 r2 offset : ℕ) → ℕ
encode_b opcode f3 r1 r2 offset =
    opcode
    + put offset 11 1 7
    + put offset 1 4 8
    + f3 * 2 ^ 12
    + r1 * 2 ^ 15
    + r2 * 2 ^ 20
    + put offset 5 6 25
    + put offset 12 1 31

or_b :
    (x a c b : ℕ)
    → x % 2 ^ 12 ≡ 0
    → a < 2
    → c < 64
    → b < 16
    → bit_or (bit_or (bit_or x (shl64 a 11)) (shl64 c 5)) (shl64 b 1)
      ≡ x + a * 2 ^ 11 + c * 2 ^ 5 + b * 2
or_b x a c b z ha hc hb =
    ap (λ (t : ℕ). bit_or (bit_or t (shl64 c 5)) (shl64 b 1))
      (bit_or-add 12 x (shl64 a 11) z (omega arith))
    ∙ ap (λ (t : ℕ). bit_or t (shl64 b 1))
        (bit_or-add 11 (x + shl64 a 11) (shl64 c 5) (omega arith) (omega arith))
    ∙ bit_or-add 5 (x + shl64 a 11 + shl64 c 5) (shl64 b 1) (omega arith) (omega arith)
    ∙ omega arith

sign_b : (d : ℕ) → d < 2 → shl64 (if d == 1 then d + (2 ^ 64 - 2) else d) 12 ≡ d * (2 ^ 64 - 2 ^ 12)
sign_b d h = ground arith

abbrev operands : ℕ → ℕ → ℕ → Operands
operands a b c = record { src1 = a; src2 = b; dest = c }

operands_eq : {a b c a' b' c' : ℕ} → a ≡ a' → b ≡ b' → c ≡ c' → operands a b c ≡ operands a' b' c'
operands_eq {b} {c} {a'} {b'} e f g =
    ap (λ (t : ℕ). operands t b c) e ∙ ap (λ (t : ℕ). operands a' t c) f ∙ ap (operands a' b') g

offset_b_lem :
    (w a b c d : ℕ)
    → field w 7 1 ≡ a
    → field w 8 4 ≡ b
    → field w 25 6 ≡ c
    → field w 31 1 ≡ d
    → a < 2
    → b < 16
    → c < 64
    → d < 2
    → offset_b w ≡ d * (2 ^ 64 - 2 ^ 12) + a * 2 ^ 11 + c * 2 ^ 5 + b * 2
unfolding offset_b
offset_b_lem w a b c d ea eb ec ed ha hb hc hd =
    rw (ea, eb, ec, ed)
      (or_b (shl64 (if d == 1 then d + (2 ^ 64 - 2) else d) 12) a c b (omega (arith, sign_b d hd))
          ha hc hb
        ∙ omega (arith, sign_b d hd))

offset_bits_b :
    (offset : ℕ)
    → offset % 2 ≡ 0
    → Fits 12 offset
    → field offset 12 1 * (2 ^ 64 - 2 ^ 12)
        + field offset 11 1 * 2 ^ 11
        + field offset 5 6 * 2 ^ 5
        + field offset 1 4 * 2
      ≡ offset
offset_bits_b offset even (inl h) = omega arith
offset_bits_b offset even (inr h) = omega (arith, h.0, h.1)

-- A branch written in its format, with registers and an even offset of 13 bits, is decoded to its
-- registers and the target that lies at the offset.
pub decode_b-encode_b :
    (pc opcode f3 r1 r2 offset : ℕ)
    → opcode < 2 ^ 7
    → f3 < 8
    → r1 < 32
    → r2 < 32
    → offset % 2 ≡ 0
    → Fits 12 offset
    → decode_b pc (encode_b opcode f3 r1 r2 offset)
      ≡ record { src1 = r1; src2 = r2; dest = u64 (pc + offset) }
unfolding decode_b
decode_b-encode_b pc opcode f3 r1 r2 offset ho hf h1 h2 even fit =
    operands_eq (omega arith) (omega arith) (
      ap (λ (t : ℕ). u64 (pc + t))
        (offset_b_lem (encode_b opcode f3 r1 r2 offset) (field offset 11 1) (field offset 1 4)
            (field offset 5 6) (field offset 12 1) (omega arith) (omega arith) (omega arith)
            (omega arith) (omega arith) (omega arith) (omega arith) (omega arith)
          ∙ offset_bits_b offset even fit))

abbrev pub encode_j : (opcode link offset : ℕ) → ℕ
encode_j opcode link offset =
    opcode
    + link * 2 ^ 7
    + put offset 12 8 12
    + put offset 11 1 20
    + put offset 1 10 21
    + put offset 20 1 31

or_j :
    (x a b c : ℕ)
    → x % 2 ^ 20 ≡ 0
    → a < 256
    → b < 2
    → c < 1024
    → bit_or (bit_or (bit_or x (shl64 a 12)) (shl64 b 11)) (shl64 c 1)
      ≡ x + a * 2 ^ 12 + b * 2 ^ 11 + c * 2
or_j x a b c z ha hb hc =
    ap (λ (t : ℕ). bit_or (bit_or t (shl64 b 11)) (shl64 c 1))
      (bit_or-add 20 x (shl64 a 12) z (omega arith))
    ∙ ap (λ (t : ℕ). bit_or t (shl64 c 1))
        (bit_or-add 12 (x + shl64 a 12) (shl64 b 11) (omega arith) (omega arith))
    ∙ bit_or-add 11 (x + shl64 a 12 + shl64 b 11) (shl64 c 1) (omega arith) (omega arith)
    ∙ omega arith

sign_j : (d : ℕ) → d < 2 → shl64 (if d == 1 then d + (2 ^ 64 - 2) else d) 20 ≡ d * (2 ^ 64 - 2 ^ 20)
sign_j d h = ground arith

offset_j_lem :
    (w a b c d : ℕ)
    → field w 12 8 ≡ a
    → field w 20 1 ≡ b
    → field w 21 10 ≡ c
    → field w 31 1 ≡ d
    → a < 256
    → b < 2
    → c < 1024
    → d < 2
    → offset_j w ≡ d * (2 ^ 64 - 2 ^ 20) + a * 2 ^ 12 + b * 2 ^ 11 + c * 2
unfolding offset_j
offset_j_lem w a b c d ea eb ec ed ha hb hc hd =
    rw (ea, eb, ec, ed)
      (or_j (shl64 (if d == 1 then d + (2 ^ 64 - 2) else d) 20) a b c (omega (arith, sign_j d hd))
          ha hb hc
        ∙ omega (arith, sign_j d hd))

offset_bits_j :
    (offset : ℕ)
    → offset % 2 ≡ 0
    → Fits 20 offset
    → field offset 20 1 * (2 ^ 64 - 2 ^ 20)
        + field offset 12 8 * 2 ^ 12
        + field offset 11 1 * 2 ^ 11
        + field offset 1 10 * 2
      ≡ offset
offset_bits_j offset even (inl h) = omega arith
offset_bits_j offset even (inr h) = omega (arith, h.0, h.1)

-- A jump written in its format, with a register and an even offset of 21 bits, is decoded to the
-- target at the offset, the address to link and the register.
pub decode_j-encode_j :
    (pc snpc opcode link offset : ℕ)
    → opcode < 2 ^ 7
    → link < 32
    → offset % 2 ≡ 0
    → Fits 20 offset
    → decode_j pc snpc (encode_j opcode link offset)
      ≡ record { src1 = u64 (pc + offset); src2 = snpc; dest = link }
unfolding decode_j
decode_j-encode_j pc snpc opcode link offset ho hl even fit =
    operands_eq
      (ap (λ (t : ℕ). u64 (pc + t))
        (offset_j_lem (encode_j opcode link offset) (field offset 12 8) (field offset 11 1)
            (field offset 1 10) (field offset 20 1) (omega arith) (omega arith) (omega arith)
            (omega arith) (omega arith) (omega arith) (omega arith) (omega arith)
          ∙ offset_bits_j offset even fit))
      refl (omega arith)

-- A store, with the immediate in two parts.
abbrev pub encode_s : (opcode f3 r1 r2 offset : ℕ) → ℕ
encode_s opcode f3 r1 r2 offset =
    opcode + put offset 0 5 7 + f3 * 2 ^ 12 + r1 * 2 ^ 15 + r2 * 2 ^ 20 + put offset 5 7 25

abbrev pub encode_i : (opcode f3 r1 link imm : ℕ) → ℕ
encode_i opcode f3 r1 link imm = opcode + link * 2 ^ 7 + f3 * 2 ^ 12 + r1 * 2 ^ 15 + put imm 0 12 20

sign_s :
    (w d : ℕ)
    → d < 128
    → field w 25 7 ≡ d
    → shl64 (signed_field w 25 7) 5 ≡ d / 64 * (2 ^ 64 - 2 ^ 12) + d * 32
sign_s w d h e = ground arith

offset_s_lem :
    (w offset : ℕ)
    → field w 7 5 ≡ field offset 0 5
    → field w 25 7 ≡ field offset 5 7
    → Fits 11 offset
    → offset_s w ≡ offset
unfolding offset_s
offset_s_lem w offset ea ed fit =
    bit_or-add 5 (shl64 (signed_field w 25 7) 5) (field w 7 5) (omega (arith, parts.0))
      (omega arith)
    ∙ parts.1
  where
    parts :
        (shl64 (signed_field w 25 7) 5 % 2 ^ 5 ≡ 0)
        × (shl64 (signed_field w 25 7) 5 + field w 7 5 ≡ offset)
    parts = rw (sign_s w (field offset 5 7) (omega arith) ed, ea) (omega arith, omega (arith, fit))

-- An instruction with an immediate of 12 bits, and a store, each written in its format, are decoded to
-- their registers and the immediate with its sign.
pub decode_i-encode_i :
    (opcode f3 r1 r2 imm : ℕ)
    → opcode < 2 ^ 7
    → f3 < 8
    → r1 < 32
    → r2 < 32
    → Fits 11 imm
    → (decode_i (encode_i opcode f3 r1 r2 imm) ≡ record { src1 = r1; src2 = imm; dest = r2 })
      × (decode_s (encode_s opcode f3 r1 r2 imm) ≡ record { src1 = r1; src2 = imm; dest = r2 })
unfolding decode_i decode_s
decode_i-encode_i opcode f3 r1 r2 imm ho hf h1 h2 fit = (
  operands_eq (omega arith) (ground arith) (omega arith),
  operands_eq (omega arith)
      (offset_s_lem (encode_s opcode f3 r1 r2 imm) imm (omega arith) (omega arith) fit)
      (omega arith),
)
