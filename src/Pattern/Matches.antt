-- ===== src/Pattern/Matches.antt =====
-- The test of an instruction against a decoded pattern is the comparison of its bits with the characters.
use native.Mathlib.Nat.{pow-succ', div-div-eq-div-mul}
use nemu.Base.{
  ℕ, zero, suc, ◌+◌, ◌-◌, ◌*◌, ◌/◌, ◌%◌, ◌^◌, ◌<◌, ◌≤◌, ◌≡◌, refl, sym, ap, ◌∙◌, arith, min,
}
use nemu.Base.{Bool, true, ◌&&◌, ◌||◌, ◌==◌, if◌then◌else◌, Bool-cases, inl, inr, ◌⊎◌, ==_iff}
use nemu.Base.{some, List, [], ◌∷◌, length, u32, bit_and}
use nemu.Bits.{bit_and_step, bit_and-zero}
use nemu.Pattern.{
  Pattern, space, zero_char, one_char, any_char, step, is_pattern_char, decode_loop, finish,
  pattern_decode, is_instr,
}

-- The comparison from the last character and bit 0 on; a space stands for no bit.
unfoldable pub agrees : List ℕ → ℕ → Bool
agrees [] instr = true
agrees (c ∷ cs) instr =
    let same = agrees cs instr in
    let rest = agrees cs (instr / 2) in
    if c == space
    then same
    else (c == any_char || (instr % 2 == (if c == one_char then 1 else 0))) && rest

-- `cs` reversed, in front of `ps`.
unfoldable pub reverse_onto : List ℕ → List ℕ → List ℕ
reverse_onto [] ps = ps
reverse_onto (c ∷ cs) ps = reverse_onto cs (c ∷ ps)

-- The number of bits that the characters stand for.
unfoldable pub bits : List ℕ → ℕ
bits [] = 0
bits (c ∷ cs) = let rest = bits cs in if c == space then rest else suc rest

unfoldable pub are_valid : List ℕ → Bool
are_valid [] = true
are_valid (c ∷ cs) = ((c == space) || is_pattern_char c) && are_valid cs

word_pow : (d r : ℕ) → r + d ≡ 32 → 2 ^ r ≤ 2 ^ 32
word_pow zero r e = rw (at e) (omega arith)
  where
    at : r + 0 ≡ 32 → r ≡ 32
    at h = omega arith
word_pow (suc d) r e = omega (arith, word_pow d (suc r) (omega arith), pow-succ' 2 r)

pow_le : (r : ℕ) → r ≤ 32 → 2 ^ r ≤ 2 ^ 32
pow_le r h = word_pow (32 - r) r (omega arith)

-- What the loop has made of the characters `ps`, the last first, which stand for `n` bits.
record Decoded (ps : List ℕ) (n : ℕ) (p : Pattern) : Type 0 where
  key_lt : p.key < 2 ^ n
  mask_lt : p.mask < 2 ^ n
  whole : (w : ℕ) → (bit_and w p.mask == p.key) ≡ agrees ps w
  shifted : (w : ℕ) → is_instr (finish p) w ≡ agrees ps w

one_bit :
    (w k m b n : ℕ)
    → b < 2
    → n < 2
    → (bit_and w (m * 2 + n) == k * 2 + b) ≡ ((min (w % 2) n == b) && (bit_and (w / 2) m == k))
one_bit w k m b n hb hn = rw split (ground arith)
  where
    half : (m * 2 + n) / 2 ≡ m
    half = omega arith

    split : bit_and w (m * 2 + n) ≡ bit_and (w / 2) m * 2 + min (w % 2) n
    split = omega (arith, bit_and_step w (m * 2 + n), ap (λ (t : ℕ). bit_and (w / 2) t) half)

no_wrap : (k n : ℕ) → k < 2 ^ n → suc n ≤ 32 → u32 (k * 2) ≡ k * 2
no_wrap k n h l = omega (arith, pow_le (suc n) l, pow-succ' 2 n)

shift_down : (w s : ℕ) → w / 2 ^ suc s ≡ w / 2 / 2 ^ s
shift_down w s = ap (λ (t : ℕ). w / t) (pow-succ' 2 s) ∙ sym (div-div-eq-div-mul w 2 (2 ^ s))

drop_low : (m s : ℕ) → m * 2 / 2 ^ suc s ≡ m / 2 ^ s
drop_low m s = shift_down (m * 2) s ∙ ap (λ (t : ℕ). t / 2 ^ s) half
  where
    half : m * 2 / 2 ≡ m
    half = omega arith

-- One more bit that is fixed.
fixed-Decoded :
    (ps : List ℕ) (c b n : ℕ) (p : Pattern)
    → suc n ≤ 32
    → b < 2
    → ((w : ℕ) → agrees (c ∷ ps) w ≡ ((w % 2 == b) && agrees ps (w / 2)))
    → Decoded ps n p
    → Decoded
        (c ∷ ps)
        (suc n)
        record { key = u32 (p.key * 2) + b; mask = u32 (p.mask * 2) + 1; shift = 0 }
unfolding is_instr finish
fixed-Decoded ps c b n p l hb spec d = record {
  key_lt = omega (arith, d.key_lt, pow-succ' 2 n, no_wrap p.key n d.key_lt l);
  mask_lt = omega (arith, d.mask_lt, pow-succ' 2 n, no_wrap p.mask n d.mask_lt l);
  whole = same;
  shifted = λ w.
      rw (unshifted w, unshifted (u32 (p.mask * 2) + 1), unshifted (u32 (p.key * 2) + b)) (same w);
}
  where
    unshifted : (x : ℕ) → x / 1 ≡ x
    unshifted x = omega arith

    low : (x : ℕ) → min (x % 2) 1 ≡ x % 2
    low x = omega arith

    same : (w : ℕ) → (bit_and w (u32 (p.mask * 2) + 1) == u32 (p.key * 2) + b) ≡ agrees (c ∷ ps) w
    same w =
        rw (no_wrap p.mask n d.mask_lt l, no_wrap p.key n d.key_lt l)
          (one_bit w p.key p.mask b 1 hb (omega arith) ∙ rw (low w, d.whole (w / 2)) (sym (spec w)))

-- One more bit that may be any.
any-Decoded :
    (ps : List ℕ) (n : ℕ) (p : Pattern)
    → suc n ≤ 32
    → Decoded ps n p
    → Decoded
        (any_char ∷ ps)
        (suc n)
        record { key = u32 (p.key * 2) + 0; mask = u32 (p.mask * 2) + 0; shift = p.shift + 1 }
unfolding is_instr finish agrees
any-Decoded ps n p l d = record {
  key_lt = omega (arith, d.key_lt, pow-succ' 2 n, no_wrap p.key n d.key_lt l);
  mask_lt = omega (arith, d.mask_lt, pow-succ' 2 n, no_wrap p.mask n d.mask_lt l);
  whole = λ w.
      rw (no_wrap p.mask n d.mask_lt l, no_wrap p.key n d.key_lt l)
        (one_bit w p.key p.mask 0 0 (omega arith) (omega arith)
          ∙ rw (none_fixed w, d.whole (w / 2)) refl);
  shifted = λ w.
      rw (no_wrap p.mask n d.mask_lt l, no_wrap p.key n d.key_lt l)
        (rw (down w, drop p.mask, drop p.key) (d.shifted (w / 2)));
}
  where
    none_fixed : (w : ℕ) → (min (w % 2) 0 == 0) ≡ true
    none_fixed w = ground arith

    next_shift : p.shift + 1 ≡ suc p.shift
    next_shift = omega arith

    down : (w : ℕ) → w / 2 ^ (p.shift + 1) ≡ w / 2 / 2 ^ p.shift
    down w = ap (λ (t : ℕ). w / 2 ^ t) next_shift ∙ shift_down w p.shift

    drop : (m : ℕ) → (m * 2 + 0) / 2 ^ (p.shift + 1) ≡ m / 2 ^ p.shift
    drop m =
        ap (λ (t : ℕ). t / 2 ^ (p.shift + 1)) plain
        ∙ ap (λ (t : ℕ). m * 2 / 2 ^ t) next_shift
        ∙ drop_low m p.shift
      where
        plain : m * 2 + 0 ≡ m * 2
        plain = omega arith

char_cases :
    (c : ℕ) → is_pattern_char c ≡ true → (c ≡ zero_char) ⊎ ((c ≡ one_char) ⊎ (c ≡ any_char))
char_cases c h = ground arith

step-Decoded :
    (ps : List ℕ) (c n : ℕ) (p : Pattern)
    → suc n ≤ 32
    → is_pattern_char c ≡ true
    → Decoded ps n p
    → Decoded (c ∷ ps) (suc n) (step c p)
unfolding step agrees
step-Decoded ps c n p l h d = elim (char_cases c h) [
  | inl e ↦ rw e (fixed-Decoded ps zero_char 0 n p l (omega arith) (λ w. refl) d)
  | inr (inl e) ↦ rw e (fixed-Decoded ps one_char 1 n p l (omega arith) (λ w. refl) d)
  | inr (inr e) ↦ rw e (any-Decoded ps n p l d)
]

space-Decoded : (ps : List ℕ) (n : ℕ) (p : Pattern) → Decoded ps n p → Decoded (space ∷ ps) n p
unfolding agrees
space-Decoded ps n p d = record {
  key_lt = d.key_lt;
  mask_lt = d.mask_lt;
  whole = d.whole;
  shifted = d.shifted;
}

-- What the loop returns, and that it stands for the whole text.
record Loops (cs ps : List ℕ) (left : ℕ) (p : Pattern) : Type 0 where
  last : Pattern
  returns : decode_loop left cs p ≡ some last
  tests : (w : ℕ) → is_instr (finish last) w ≡ agrees (reverse_onto cs ps) w

decode_loop-Loops :
    (cs ps : List ℕ) (left n : ℕ) (p : Pattern)
    → length cs ≤ left
    → n + bits cs ≤ 32
    → are_valid cs ≡ true
    → Decoded ps n p
    → Loops cs ps left p
unfolding decode_loop bits are_valid reverse_onto
decode_loop-Loops [] ps zero n p l b v d = record { last = p; returns = refl; tests = d.shifted }
decode_loop-Loops [] ps (suc left) n p l b v d = record {
  last = p;
  returns = refl;
  tests = d.shifted;
}
decode_loop-Loops (c ∷ cs) ps zero n p l b v d = absurd (omega arith)
decode_loop-Loops (c ∷ cs) ps (suc left) n p l b v d = elim (Bool-cases (c == space)) [
  | inl y ↦
      let r =
        decode_loop-Loops cs (c ∷ ps) left n p (omega arith) (ground arith) (ground arith)
          (rw ((==_iff c space).0 y) (space-Decoded ps n p d)) in
      record { last = r.last; returns = rw y r.returns; tests = r.tests }
  | inr other ↦
      let good : is_pattern_char c ≡ true = ground arith in
      let r =
        decode_loop-Loops cs (c ∷ ps) left (suc n) (step c p) (omega arith) (ground arith)
          (ground arith) (step-Decoded ps c n p (ground arith) good d) in
      record { last = r.last; returns = rw (other, good) r.returns; tests = r.tests }
]

start : Decoded [] 0 record { key = 0; mask = 0; shift = 0 }
unfolding agrees is_instr finish
start = record {
  key_lt = omega arith;
  mask_lt = omega arith;
  whole = λ w. rw (bit_and-zero w) refl;
  shifted = λ w. rw (bit_and-zero (w / 1)) refl;
}

finished :
    (str : List ℕ) (p : Pattern)
    → decode_loop 64 str record { key = 0; mask = 0; shift = 0 } ≡ some p
    → pattern_decode str ≡ some (finish p)
unfolding pattern_decode
finished str p h = rw (h, pattern_decode) refl

-- A text of at most 64 characters, each a space, a bit or a question mark, that stands for at most 32
-- bits is decoded, and an instruction passes the test exactly where each of its bits, from the last
-- character on, agrees with the character for it.
pub pattern_decode-agrees :
    (str : List ℕ)
    → length str ≤ 64
    → bits str ≤ 32
    → are_valid str ≡ true
    → (p : Pattern) × (pattern_decode str ≡ some p)
      × ((instr : ℕ) → is_instr p instr ≡ agrees (reverse_onto str []) instr)
pattern_decode-agrees str l b v =
    let r =
      decode_loop-Loops str [] 64 0 record { key = 0; mask = 0; shift = 0 } l (omega arith) v
        start in
    (finish r.last, finished str r.last r.returns, r.tests)
