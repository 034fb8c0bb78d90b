-- ===== src/Rvc/Immediates.antt =====
-- The immediates of the compressed instructions as the sums of their bits at the places that the architecture
-- gives.
use nemu.Base.{
  ℕ, zero, suc, ◌+◌, ◌-◌, ◌*◌, ◌/◌, ◌%◌, ◌^◌, ◌<◌, ◌≡◌, refl, ◌∙◌, ap, arith, true, false, ◌==◌,
  ==_iff, if◌then◌else◌, Bool-cases, inl, inr, sym,
}
use nemu.Base.{u32, bit_or, shl64, field}
use nemu.Bits.Pack.{bit_or-add}
use nemu.Rvc.Decode.{
  ror_imm, imm5_of, imm6_of, sext, c_imm6, addi16sp_imm, addi4spn_imm, offset_cb, offset_cj,
}

-- A rotation moves the lower bits above the others.
abbrev rotated : ℕ → ℕ → ℕ → ℕ
rotated x len r = x / 2 ^ r * 2 ^ r + x % 2 ^ r * 2 ^ len

-- How many numbers below `count` the rotation takes to another value.
unfoldable strays : (len r count : ℕ) → ℕ
strays len r zero = 0
strays len r (suc k) = (if ror_imm k len r == rotated k len r then 0 else 1) + strays len r k

rotation :
    (len r count x : ℕ) → strays len r count ≡ 0 → x < count → ror_imm x len r ≡ rotated x len r
unfolding strays
rotation len r zero x none lt = absurd (omega arith)
rotation len r (suc k) x none lt = elim (Bool-cases (x == k)) [
  | inl same ↦
      ap (λ (t : ℕ). ror_imm t len r) ((==_iff x k).0 same)
      ∙ (==_iff (ror_imm k len r) (rotated k len r)).0 (ground arith)
      ∙ sym (ap (λ (t : ℕ). rotated t len r) ((==_iff x k).0 same))
  | inr other ↦ rotation len r k x (omega arith) (ground arith)
]

ror_5_1 : (x : ℕ) → x < 32 → ror_imm x 5 1 ≡ rotated x 5 1
unfolding strays ror_imm
ror_5_1 x = rotation 5 1 32 x refl

ror_5_2 : (x : ℕ) → x < 32 → ror_imm x 5 2 ≡ rotated x 5 2
unfolding strays ror_imm
ror_5_2 x = rotation 5 2 32 x refl

ror_6_2 : (x : ℕ) → x < 64 → ror_imm x 6 2 ≡ rotated x 6 2
unfolding strays ror_imm
ror_6_2 x = rotation 6 2 64 x refl

ror_6_3 : (x : ℕ) → x < 64 → ror_imm x 6 3 ≡ rotated x 6 3
unfolding strays ror_imm
ror_6_3 x = rotation 6 3 64 x refl

ror_6_4 : (x : ℕ) → x < 64 → ror_imm x 6 4 ≡ rotated x 6 4
unfolding strays ror_imm
ror_6_4 x = rotation 6 4 64 x refl

-- The bits of the fields of an instruction, from the lowest on.
abbrev pub bit : ℕ → ℕ → ℕ
bit w i = field w i 1

imm5_lem : (w : ℕ) → imm5_of w ≡ field w 10 3 * 4 + field w 5 2
imm5_lem w = bit_or-add 2 (field w 10 3 * 2 ^ 2) (field w 5 2) (omega arith) (omega arith)

imm6_lem : (w : ℕ) → imm6_of w ≡ bit w 12 * 32 + field w 2 5
imm6_lem w = bit_or-add 5 (field w 12 1 * 2 ^ 5) (field w 2 5) (omega arith) (omega arith)

-- The offsets of loads and stores.
pub word_offset :
    (w : ℕ) → u32 (ror_imm (imm5_of w) 5 1 * 2) ≡ bit w 5 * 64 + field w 10 3 * 8 + bit w 6 * 4
word_offset w =
    ap (λ (t : ℕ). u32 (t * 2))
      (ap (λ (t : ℕ). ror_imm t 5 1) (imm5_lem w) ∙ ror_5_1 _ (omega arith))
    ∙ omega arith

pub double_offset :
    (w : ℕ) → u32 (ror_imm (imm5_of w) 5 2 * 2) ≡ field w 5 2 * 64 + field w 10 3 * 8
double_offset w =
    ap (λ (t : ℕ). u32 (t * 2))
      (ap (λ (t : ℕ). ror_imm t 5 2) (imm5_lem w) ∙ ror_5_2 _ (omega arith))
    ∙ omega arith

pub stack_word_offset :
    (w : ℕ) → ror_imm (imm6_of w) 6 2 ≡ field w 2 2 * 64 + bit w 12 * 32 + field w 4 3 * 4
stack_word_offset w =
    ap (λ (t : ℕ). ror_imm t 6 2) (imm6_lem w) ∙ ror_6_2 _ (omega arith) ∙ omega arith

pub stack_double_offset :
    (w : ℕ) → ror_imm (imm6_of w) 6 3 ≡ field w 2 3 * 64 + bit w 12 * 32 + field w 5 2 * 8
stack_double_offset w =
    ap (λ (t : ℕ). ror_imm t 6 3) (imm6_lem w) ∙ ror_6_3 _ (omega arith) ∙ omega arith

pub stack_word_store_offset :
    (w : ℕ) → ror_imm (field w 7 6) 6 2 ≡ field w 7 2 * 64 + field w 9 4 * 4
stack_word_store_offset w = ror_6_2 _ (omega arith) ∙ omega arith

pub stack_double_store_offset :
    (w : ℕ) → ror_imm (field w 7 6) 6 3 ≡ field w 7 3 * 64 + field w 10 3 * 8
stack_double_store_offset w = ror_6_3 _ (omega arith) ∙ omega arith

pub stack_address_offset :
    (w : ℕ) → addi4spn_imm w ≡ field w 7 4 * 64 + field w 11 2 * 16 + bit w 5 * 8 + bit w 6 * 4
unfolding addi4spn_imm
stack_address_offset w =
    ap (λ (t : ℕ). bit_or (bit_or t (bit w 5 * 2 ^ 3)) (bit w 6 * 2 ^ 2))
      (ror_6_4 (field w 7 6) (omega arith))
    ∙ ap (λ (t : ℕ). bit_or t (bit w 6 * 2 ^ 2))
        (bit_or-add 4 (rotated (field w 7 6) 6 4) (bit w 5 * 2 ^ 3) (omega arith) (omega arith))
    ∙ bit_or-add 3 _ (bit w 6 * 2 ^ 2) (omega arith) (omega arith)
    ∙ omega arith

sign_8 : (b : ℕ) → b < 2 → shl64 (sext b 1) 8 ≡ b * (2 ^ 64 - 2 ^ 8)
sign_8 b h = ground arith

sign_9 : (b : ℕ) → b < 2 → shl64 (sext b 1) 9 ≡ b * (2 ^ 64 - 2 ^ 9)
sign_9 b h = ground arith

sign_11 : (b : ℕ) → b < 2 → shl64 (sext b 1) 11 ≡ b * (2 ^ 64 - 2 ^ 11)
sign_11 b h = ground arith

-- A part of an immediate below the bits that are there already.
below : {x x' : ℕ} (k part : ℕ) → x ≡ x' → x' % 2 ^ k ≡ 0 → part < 2 ^ k → bit_or x part ≡ x' + part
below {x'} k part e z h = ap (λ (t : ℕ). bit_or t part) e ∙ bit_or-add k x' part z h

pub branch_offset :
    (w : ℕ)
    → offset_cb w
      ≡ bit w 12 * (2 ^ 64 - 2 ^ 8)
        + field w 5 2 * 64
        + bit w 2 * 32
        + field w 10 2 * 8
        + field w 3 2 * 2
unfolding offset_cb
branch_offset w =
    below 3 (field w 3 2 * 2)
      (below 5 (field w 10 2 * 2 ^ 3)
        (below 6 (bit w 2 * 2 ^ 5)
          (below 8 (field w 5 2 * 2 ^ 6) (sign_8 (bit w 12) (omega arith)) (omega arith)
            (omega arith))
          (omega arith) (omega arith))
        (omega arith) (omega arith))
      (omega arith) (omega arith)
    ∙ omega arith

pub jump_offset :
    (w : ℕ)
    → offset_cj w
      ≡ bit w 12 * (2 ^ 64 - 2 ^ 11)
        + bit w 8 * 1024
        + field w 9 2 * 256
        + bit w 6 * 128
        + bit w 7 * 64
        + bit w 2 * 32
        + bit w 11 * 16
        + field w 3 3 * 2
unfolding offset_cj
jump_offset w =
    below 4 (field w 3 3 * 2) (below 5 (bit w 11 * 2 ^ 4) lower (omega arith) (omega arith))
      (omega arith) (omega arith)
    ∙ omega arith
  where
    upper :
        bit_or
          (bit_or (bit_or (shl64 (sext (bit w 12) 1) 11) (bit w 8 * 2 ^ 10)) (field w 9 2 * 2 ^ 8))
          (bit w 6 * 2 ^ 7)
        ≡ bit w 12 * (2 ^ 64 - 2 ^ 11) + bit w 8 * 2 ^ 10 + field w 9 2 * 2 ^ 8 + bit w 6 * 2 ^ 7
    upper =
        below 8 (bit w 6 * 2 ^ 7)
          (below 10 (field w 9 2 * 2 ^ 8)
            (below 11 (bit w 8 * 2 ^ 10) (sign_11 (bit w 12) (omega arith)) (omega arith)
              (omega arith))
            (omega arith) (omega arith))
          (omega arith) (omega arith)

    lower :
        bit_or
          (bit_or
            (bit_or
              (bit_or
                (bit_or (shl64 (sext (bit w 12) 1) 11) (bit w 8 * 2 ^ 10))
                (field w 9 2 * 2 ^ 8))
              (bit w 6 * 2 ^ 7))
            (bit w 7 * 2 ^ 6))
          (bit w 2 * 2 ^ 5)
        ≡ bit w 12 * (2 ^ 64 - 2 ^ 11)
          + bit w 8 * 2 ^ 10
          + field w 9 2 * 2 ^ 8
          + bit w 6 * 2 ^ 7
          + bit w 7 * 2 ^ 6
          + bit w 2 * 2 ^ 5
    lower =
        below 6 (bit w 2 * 2 ^ 5) (below 7 (bit w 7 * 2 ^ 6) upper (omega arith) (omega arith))
          (omega arith) (omega arith)

pub stack_adjustment :
    (w : ℕ)
    → addi16sp_imm w
      ≡ bit w 12 * (2 ^ 64 - 2 ^ 9) + field w 3 2 * 128 + bit w 5 * 64 + bit w 2 * 32 + bit w 6 * 16
unfolding addi16sp_imm
stack_adjustment w =
    below 5 (bit w 6 * 2 ^ 4)
      (below 6 (bit w 2 * 2 ^ 5)
        (below 7 (bit w 5 * 2 ^ 6)
          (below 9 (field w 3 2 * 2 ^ 7) (sign_9 (bit w 12) (omega arith)) (omega arith)
            (omega arith))
          (omega arith) (omega arith))
        (omega arith) (omega arith))
      (omega arith) (omega arith)
    ∙ omega arith

sign_6 : (b f : ℕ) → b < 2 → f < 32 → sext (b * 32 + f) 6 ≡ b * (2 ^ 64 - 2 ^ 5) + f
sign_6 b f hb hf = ground arith

-- The immediates of six bits, with and without their sign.
pub signed_imm6 : (w : ℕ) → sext (imm6_of w) 6 ≡ bit w 12 * (2 ^ 64 - 2 ^ 5) + field w 2 5
signed_imm6 w = rw (imm6_lem w) (sign_6 (bit w 12) (field w 2 5) (omega arith) (omega arith))

pub simm : (w : ℕ) → c_imm6 (imm6_of w) true 0 0 ≡ bit w 12 * (2 ^ 64 - 2 ^ 5) + field w 2 5
unfolding c_imm6
simm w = ap (λ (t : ℕ). shl64 t 0) (signed_imm6 w) ∙ omega arith

pub uimm : (w : ℕ) → c_imm6 (imm6_of w) false 0 0 ≡ bit w 12 * 32 + field w 2 5
unfolding c_imm6 ror_imm
uimm w = imm6_lem w
