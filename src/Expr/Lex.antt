-- ===== src/Expr/Lex.antt =====
-- make_token of utils/expr.c: the rules, tried in order at each position. A rule is a function from
-- the rest of the text to the length of its match there, as regexec finds it.
use nemu.Base.{ℕ, zero, suc, ◌+◌, Bool, true, false, not, ◌&&◌, ◌||◌, ltb, leb}
use nemu.Base.{◌==◌, if◌then◌else◌, Option, none, some, List, [], ◌∷◌, length, take, drop}
use nemu.Expr.Text.{is_digit, is_hex}
use nemu.Expr.Tokens.{TokenType, Token, num, reg, lparen, rparen, op}
use nemu.Expr.Tokens.{plus, minus, times, over, percent, eq_eq, bang_eq, and_and, or_or, bang}

-- The length of the longest run of at most `limit` bytes of a class.
unfoldable pub run_length : (ℕ → Bool) → ℕ → List ℕ → ℕ
run_length p zero cs = 0
run_length p (suc limit) [] = 0
run_length p (suc limit) (c ∷ cs) = if p c then suc (run_length p limit cs) else 0

-- `[class]{1,limit}`, after `skip` bytes that have matched already.
abbrev pub at_least_one : ℕ → ℕ → Option ℕ
at_least_one skip n = if ltb 0 n then some (skip + n) else none

unfoldable pub one_char : ℕ → List ℕ → Option ℕ
one_char x [] = none
one_char x (c ∷ cs) = if c == x then some 1 else none

unfoldable pub two_chars : ℕ → ℕ → List ℕ → Option ℕ
two_chars x y (c ∷ d ∷ cs) = if (c == x) && (d == y) then some 2 else none
two_chars x y _ = none

abbrev pub is_space : ℕ → Bool
is_space c = c == b' '

abbrev pub is_reg_char : ℕ → Bool
is_reg_char c = (leb b'a' c && leb c b'z') || is_digit c

unfoldable pub spaces : List ℕ → Option ℕ
spaces cs = at_least_one 0 (run_length is_space (length cs) cs)

unfoldable pub hex_number : List ℕ → Option ℕ
hex_number cs = elim (two_chars b'0' b'x' cs) [
  | none ↦ none
  | some n ↦ at_least_one 2 (run_length is_hex 16 (drop 2 cs))
]

unfoldable pub dec_number : List ℕ → Option ℕ
dec_number cs = at_least_one 0 (run_length is_digit 10 cs)

unfoldable pub reg_name : List ℕ → Option ℕ
reg_name cs = elim (one_char b'$' cs) [
  | none ↦ none
  | some n ↦ at_least_one 1 (run_length is_reg_char 31 (drop 1 cs))
]

-- A rule with its token type, `none` for TK_NOTYPE.
pub record Rule : Type 0 where
  pub regex : List ℕ → Option ℕ
  pub token_type : Option TokenType

abbrev pub rule : (List ℕ → Option ℕ) → TokenType → Rule
rule r t = record { regex = r; token_type = some t }

abbrev pub rules : List Rule
rules =
    record { regex = spaces; token_type = none }
    ∷ rule (one_char b'+') (op plus)
    ∷ rule (two_chars b'=' b'=') (op eq_eq)
    ∷ rule hex_number num
    ∷ rule dec_number num
    ∷ rule reg_name reg
    ∷ rule (one_char b'+') (op plus)
    ∷ rule (one_char b'-') (op minus)
    ∷ rule (one_char b'*') (op times)
    ∷ rule (one_char b'/') (op over)
    ∷ rule (one_char b'%') (op percent)
    ∷ rule (two_chars b'=' b'=') (op eq_eq)
    ∷ rule (two_chars b'!' b'=') (op bang_eq)
    ∷ rule (two_chars b'&' b'&') (op and_and)
    ∷ rule (two_chars b'|' b'|') (op or_or)
    ∷ rule (one_char b'!') (op bang)
    ∷ rule (one_char b'(') lparen
    ∷ rule (one_char b')') rparen
    ∷ []

-- The first rule that matches, with the length of the match.
unfoldable pub first_match : List Rule → List ℕ → Option (ℕ × Option TokenType)
first_match [] cs = none
first_match (r ∷ rs) cs =
    let later = first_match rs cs in
    elim (r.regex cs) [ none ↦ later | some n ↦ some (n, r.token_type) ]

-- How make_token ends: with the tokens, at a position where no rule matches, with a write past the
-- 32 tokens of the array or the 32 bytes of a token's text, or out of fuel.
pub data Lexed : Type 0 where
  lexed : List Token → Lexed
  no_match : Lexed
  overrun : Lexed
  out_of_fuel : Lexed

abbrev pub keeps_text : TokenType → Bool
keeps_text num = true
keeps_text reg = true
keeps_text _ = false

unfoldable pub token_of : TokenType → List ℕ → Token
token_of t text = record { type = t; str = if keeps_text t then text else [] }

abbrev pub nr_max : ℕ
nr_max = 32

-- The text and the NUL after it fit into `str`.
abbrev pub fits : TokenType → ℕ → Bool
fits t n = not (keeps_text t) || ltb n 32

abbrev pub cons_token : Token → Lexed → Lexed
cons_token t (lexed ts) = lexed (t ∷ ts)
cons_token t no_match = no_match
cons_token t overrun = overrun
cons_token t out_of_fuel = out_of_fuel

-- The loop at the rest `cs` of the text, with `nr_token` tokens so far.
unfoldable pub make_token : ℕ → ℕ → List ℕ → Lexed
make_token fuel nr_token [] = lexed []
make_token zero nr_token (c ∷ cs) = out_of_fuel
make_token (suc fuel) nr_token (c ∷ cs) = elim (first_match rules (c ∷ cs)) [
  | none ↦ no_match
  | some (n, none) ↦ make_token fuel nr_token (drop n (c ∷ cs))
  | some (n, some t) ↦
      let rest = make_token fuel (nr_token + 1) (drop n (c ∷ cs)) in
      if ltb nr_token nr_max && fits t (length (take n (c ∷ cs)))
      then cons_token (token_of t (take n (c ∷ cs))) rest
      else overrun
]
