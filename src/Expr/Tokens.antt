-- ===== src/Expr/Tokens.antt =====
-- The tokens of the debugger's expressions (utils/expr.c).
use nemu.Base.{ℕ, Bool, true, false, List}

-- The token types that are operators: those of the rules, and the two that expr() puts for a `-` or
-- `*` without a left operand.
pub data Op : Type 0 where
  plus minus times over percent eq_eq bang_eq and_and or_or bang neg ref : Op

-- The type of a token.
pub data TokenType : Type 0 where
  num reg lparen rparen : TokenType
  op : Op → TokenType

-- `str` is set for numbers and registers only.
pub record Token : Type 0 where
  pub type : TokenType
  pub str : List ℕ

abbrev pub is_lparen : TokenType → Bool
is_lparen lparen = true
is_lparen _ = false

abbrev pub is_rparen : TokenType → Bool
is_rparen rparen = true
is_rparen _ = false

-- '!', TK_NEG and TK_REF.
abbrev pub is_unary : Op → Bool
is_unary bang = true
is_unary neg = true
is_unary ref = true
is_unary _ = false

-- A smaller number binds tighter. Its assertion cannot fail, since the callers pass operators.
unfoldable pub op_prec : Op → ℕ
op_prec bang = 0
op_prec neg = 0
op_prec ref = 0
op_prec times = 1
op_prec over = 1
op_prec percent = 1
op_prec plus = 2
op_prec minus = 2
op_prec eq_eq = 4
op_prec bang_eq = 4
op_prec and_and = 8
op_prec or_or = 9
