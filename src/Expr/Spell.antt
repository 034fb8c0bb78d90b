-- ===== src/Expr/Spell.antt =====
-- The text of tokens, and that the lexer reads it back.
use nemu.Base.{ℕ, zero, suc, ◌≤◌, ◌<◌, ◌≡◌, refl, ap, ◌∙◌, arith, Bool, true, false}
use nemu.Base.{◌==◌, none, some, List, [], ◌∷◌, ◌++◌, length, drop}
use nemu.Expr.Tokens.{Op, TokenType, Token, num, reg, lparen, rparen, op}
use nemu.Expr.Tokens.{plus, minus, times, over, percent, eq_eq, bang_eq, and_and, or_or}
use nemu.Expr.Tokens.{bang, neg, ref}
use nemu.Expr.Marks.{plain, plain_type}
use nemu.Expr.Tree.{symbol}
use nemu.Expr.Text.{is_digit, is_hex}
use nemu.Expr.Lex.{run_length, one_char, two_chars, spaces, hex_number, dec_number, reg_name, rules}
use nemu.Expr.Lex.{Rule, first_match, is_reg_char}

-- Every byte is of a class.
abbrev pub EveryIs : (ℕ → Bool) → List ℕ → Type 0
EveryIs p [] = Unit {0}
EveryIs p (c ∷ cs) = (p c ≡ true) × EveryIs p cs

-- A number of 1 to 10 decimal or of 1 to 16 hexadecimal digits, or the name of a register, of at most 30
-- characters.
pub data Spelled : TokenType → List ℕ → Type 0 where
  decimal :
      (c : ℕ) (cs : List ℕ) → EveryIs is_digit (c ∷ cs) → length cs < 10 → Spelled num (c ∷ cs)
  hexadecimal :
      (c : ℕ) (cs : List ℕ)
      → EveryIs is_hex (c ∷ cs)
      → length cs < 16
      → Spelled num (b'0' ∷ b'x' ∷ c ∷ cs)
  register :
      (c : ℕ) (cs : List ℕ)
      → EveryIs is_reg_char (c ∷ cs)
      → length cs < 30
      → Spelled reg (b'$' ∷ c ∷ cs)

-- The text of an operator; a negation and a reference have none of their own.
abbrev pub op_text : Op → List ℕ
op_text plus = b'+' ∷ []
op_text minus = b'-' ∷ []
op_text times = b'*' ∷ []
op_text over = b'/' ∷ []
op_text percent = b'%' ∷ []
op_text eq_eq = b'=' ∷ b'=' ∷ []
op_text bang_eq = b'!' ∷ b'=' ∷ []
op_text and_and = b'&' ∷ b'&' ∷ []
op_text or_or = b'|' ∷ b'|' ∷ []
op_text bang = b'!' ∷ []
op_text neg = []
op_text ref = []

abbrev pub text : Token → List ℕ
text t = elim t.type [
  | num ↦ t.str
  | reg ↦ t.str
  | lparen ↦ b'(' ∷ []
  | rparen ↦ b')' ∷ []
  | op o ↦ op_text o
]

-- Each token followed by a space.
abbrev pub spell : List Token → List ℕ
spell [] = []
spell (t ∷ ts) = text t ++ (b' ' ∷ spell ts)

run_length-all :
    (p : ℕ → Bool) (limit : ℕ) (cs : List ℕ) (d : ℕ) (rest : List ℕ)
    → EveryIs p cs
    → length cs ≤ limit
    → p d ≡ false
    → run_length p limit (cs ++ (d ∷ rest)) ≡ length cs
unfolding run_length
run_length-all p zero [] d rest h le e = refl
run_length-all p (suc limit) [] d rest h le e = rw e refl
run_length-all p zero (c ∷ cs) d rest h le e = absurd (omega arith)
run_length-all p (suc limit) (c ∷ cs) d rest h le e =
    rw h.0 (ap suc (run_length-all p limit cs d rest h.1 (omega arith) e))

-- What the lexer finds at a token that a space follows.
abbrev pub Found : TokenType → List ℕ → Type 0
Found t s = (rest : List ℕ) → first_match rules (s ++ (b' ' ∷ rest)) ≡ some (length s, some t)

-- A sign is read from its text.
pub plain-Found : (o : Op) → Found (plain_type (op o)) (text (plain (symbol (op o))))
unfolding first_match run_length one_char two_chars spaces hex_number dec_number reg_name
plain-Found plus = λ rest. refl
plain-Found minus = λ rest. refl
plain-Found _ = λ rest. refl

pub bracket-Found : (Found lparen (b'(' ∷ [])) × (Found rparen (b')' ∷ []))
unfolding first_match run_length one_char two_chars spaces hex_number dec_number reg_name
bracket-Found = (λ rest. refl, λ rest. refl)

spaces-ne : (c : ℕ) (cs : List ℕ) → (c == b' ') ≡ false → spaces (c ∷ cs) ≡ none
unfolding spaces run_length
spaces-ne c cs h = rw h refl

one_char-ne : (x c : ℕ) (cs : List ℕ) → (c == x) ≡ false → one_char x (c ∷ cs) ≡ none
unfolding one_char
one_char-ne x c cs h = rw h refl

two_chars-ne : (x y c : ℕ) (cs : List ℕ) → (c == x) ≡ false → two_chars x y (c ∷ cs) ≡ none
unfolding two_chars
two_chars-ne x y c [] h = refl
two_chars-ne x y c (d ∷ cs) h = rw h refl

is_digit-ne : (c x : ℕ) → is_digit c ≡ true → is_digit x ≡ false → (c == x) ≡ false
is_digit-ne c x h e = ground arith

two_chars-ne_second :
    (x y c d : ℕ) (cs : List ℕ) → (d == y) ≡ false → two_chars x y (c ∷ d ∷ cs) ≡ none
unfolding two_chars
two_chars-ne_second x y c d cs h = ground arith

hex_number-none : (cs : List ℕ) → two_chars b'0' b'x' cs ≡ none → hex_number cs ≡ none
unfolding hex_number
hex_number-none cs h = rw (h, hex_number) refl

-- A decimal number is not taken for the start of a hexadecimal one.
hex_number-decimal :
    (c : ℕ) (cs rest : List ℕ) → EveryIs is_digit cs → hex_number (c ∷ (cs ++ (b' ' ∷ rest))) ≡ none
hex_number-decimal c [] rest h = hex_number-none _ (two_chars-ne_second b'0' b'x' c b' ' rest refl)
hex_number-decimal c (d ∷ cs) rest h =
    hex_number-none _ (two_chars-ne_second b'0' b'x' c d _ (is_digit-ne d b'x' h.0 refl))

dec_number-decimal :
    (c : ℕ) (cs rest : List ℕ)
    → EveryIs is_digit (c ∷ cs)
    → length cs < 10
    → dec_number (c ∷ (cs ++ (b' ' ∷ rest))) ≡ some (suc (length cs))
unfolding dec_number
dec_number-decimal c cs rest h lt =
    rw (run_length-all is_digit 10 (c ∷ cs) b' ' rest h (omega arith) refl) (ground arith)

hex_number-hexadecimal :
    (c : ℕ) (cs rest : List ℕ)
    → EveryIs is_hex (c ∷ cs)
    → length cs < 16
    → hex_number (b'0' ∷ b'x' ∷ c ∷ (cs ++ (b' ' ∷ rest))) ≡ some (suc (suc (suc (length cs))))
unfolding hex_number two_chars
hex_number-hexadecimal c cs rest h lt =
    rw (run_length-all is_hex 16 (c ∷ cs) b' ' rest h (omega arith) refl) (ground arith)

reg_name-register :
    (c : ℕ) (cs rest : List ℕ)
    → EveryIs is_reg_char (c ∷ cs)
    → length cs < 30
    → reg_name (b'$' ∷ c ∷ (cs ++ (b' ' ∷ rest))) ≡ some (suc (suc (length cs)))
unfolding reg_name one_char
reg_name-register c cs rest h lt =
    rw (run_length-all is_reg_char 31 (c ∷ cs) b' ' rest h (omega arith) refl) (ground arith)

module _ (r : Rule) (rs : List Rule) (cs : List ℕ) where
  skip : r.regex cs ≡ none → first_match (r ∷ rs) cs ≡ first_match rs cs
  unfolding first_match
  skip e = rw e refl

  hit : {n : ℕ} → r.regex cs ≡ some n → first_match (r ∷ rs) cs ≡ some (n, r.token_type)
  unfolding first_match
  hit e = rw e refl

-- The rules before those of the numbers.
skip_signs :
    (c : ℕ) (cs : List ℕ)
    → (c == b' ') ≡ false
    → (c == b'+') ≡ false
    → (c == b'=') ≡ false
    → first_match rules (c ∷ cs) ≡ first_match (drop 3 rules) (c ∷ cs)
skip_signs c cs space sum equal =
    skip _ _ _ (spaces-ne c cs space)
    ∙ skip _ _ _ (one_char-ne b'+' c cs sum)
    ∙ skip _ _ _ (two_chars-ne b'=' b'=' c cs equal)

pub Spelled-Found : {t : TokenType} {s : List ℕ} → Spelled t s → Found t s
unfolding dec_number run_length
Spelled-Found (decimal c cs h lt) = λ rest.
    skip_signs c (cs ++ (b' ' ∷ rest)) (is_digit-ne c b' ' h.0 refl) (is_digit-ne c b'+' h.0 refl)
      (is_digit-ne c b'=' h.0 refl)
    ∙ skip _ _ _ (hex_number-decimal c cs rest h.1)
    ∙ hit _ _ _ (dec_number-decimal c cs rest h lt)
Spelled-Found (hexadecimal c cs h lt) = λ rest.
    skip_signs b'0' (b'x' ∷ c ∷ (cs ++ (b' ' ∷ rest))) refl refl refl
    ∙ hit _ _ _ (hex_number-hexadecimal c cs rest h lt)
Spelled-Found (register c cs h lt) = λ rest.
    let after : List ℕ = c ∷ (cs ++ (b' ' ∷ rest)) in
    skip_signs b'$' after refl refl refl
    ∙ skip _ _ _ (hex_number-none (b'$' ∷ after) (two_chars-ne b'0' b'x' b'$' after refl))
    ∙ skip _ _ _ (no_digit after)
    ∙ hit _ _ _ (reg_name-register c cs rest h lt)
  where
    no_digit : (after : List ℕ) → dec_number (b'$' ∷ after) ≡ none
    no_digit after = refl
