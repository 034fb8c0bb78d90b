-- ===== src/Expr/Tree.antt =====
-- Expressions as trees: the tokens that a tree stands for, and its value.
use nemu.Base.{ℕ, ◌≤◌, ◌<◌, ◌≡◌, true, false, List, [], ◌∷◌, ◌++◌, drop}
use nemu.Machine.{M, pure, ◌>>=◌}
use nemu.Expr.Tokens.{Op, TokenType, Token, num, reg, lparen, rparen, op, is_unary, op_prec}
use nemu.Expr.Text.{strtoul}
use nemu.Expr.{Value, value, on_value, apply_unary, apply_binary, reg_value, wrapped}

pub data Tree : Type 0 where
  constant : List ℕ → Tree
  variable : List ℕ → Tree
  unary : Op → Tree → Tree
  binary : Op → Tree → Tree → Tree
  group : Tree → Tree

abbrev pub symbol : TokenType → Token
symbol t = record { type = t; str = [] }

abbrev pub tokens : Tree → List Token
tokens (constant s) = record { type = num; str = s } ∷ []
tokens (variable s) = record { type = reg; str = s } ∷ []
tokens (unary o e) = symbol (op o) ∷ tokens e
tokens (binary o l r) = tokens l ++ (symbol (op o) ∷ tokens r)
tokens (group e) = symbol lparen ∷ (tokens e ++ (symbol rparen ∷ []))

-- How loosely the outermost operator binds.
abbrev pub looseness : Tree → ℕ
looseness (binary o l r) = op_prec o
looseness _ = 0

-- The tree is the one that the precedences give to its tokens, and no operation with two operands
-- both begins and ends with a bracket.
abbrev pub IsReadable : Tree → Type 0
IsReadable (constant s) = Unit {0}
IsReadable (variable s) = Unit {0}
IsReadable (unary o e) = (is_unary o ≡ true) × (looseness e ≡ 0) × IsReadable e
IsReadable (binary o l r) =
    (is_unary o ≡ false)
    × (looseness l ≤ op_prec o)
    × (looseness r < op_prec o)
    × (wrapped (tokens (binary o l r)) ≡ false)
    × IsReadable l
    × IsReadable r
IsReadable (group e) = IsReadable e

-- The value of a tree: operands from left to right, the first failure ends it.
unfoldable pub denote : Tree → M Value
denote (constant s) = pure (value (strtoul s))
denote (variable s) = reg_value (drop 1 s)
denote (unary o e) = denote e >>= on_value (apply_unary o)
denote (binary o l r) =
    denote l >>= on_value (λ val1. denote r >>= on_value (λ val2. apply_binary o val1 val2))
denote (group e) = denote e
