-- ===== src/Expr/Typed.antt =====
-- Typed expressions: the text of a tree is read back, and has the tree's value.
use mathlib.Core.List.{map-append}
use nemu.Base.{ℕ, suc, ◌≤◌, ◌<◌, ◌≡◌, refl, ap, ◌∙◌, arith, true, false}
use nemu.Base.{◌==◌, List, [], ◌∷◌, ◌++◌, length, map}
use nemu.Expr.Tokens.{Op, TokenType, Token, num, reg, lparen, rparen, op, plus}
use nemu.Expr.Lex.{lexed, token_of, make_token, fits}
use nemu.Expr.Text.{is_digit}
use nemu.Expr.{expr, eval, mark}
use nemu.Expr.Tree.{
  Tree, constant, variable, unary, binary, group, tokens, symbol, IsReadable, denote,
}
use nemu.Expr.Denote.{eval-tokens}
use nemu.Expr.Marks.{plain, plain_type, mark-tokens}
use nemu.Expr.Spell.{
  Spelled, decimal, hexadecimal, register, Spelled-Found, plain-Found, bracket-Found, text, spell,
}
use nemu.Expr.Read.{Lexable, AllLexable, Solid, make_token-spell, length-spell}

-- The leaves of a tree are spelled as numbers and names of registers are.
abbrev pub IsSpelled : Tree → Type 0
IsSpelled (constant s) = Spelled num s
IsSpelled (variable s) = Spelled reg s
IsSpelled (unary o e) = IsSpelled e
IsSpelled (binary o l r) = IsSpelled l × IsSpelled r
IsSpelled (group e) = IsSpelled e

-- What is typed for a tree.
abbrev pub typed : Tree → List ℕ
typed e = spell (map plain (tokens e))

plain-Lexable : (o : Op) → Lexable (plain (symbol (op o)))
unfolding token_of
plain-Lexable o = record {
  found = plain-Found o;
  same = same o;
  solid = solid o;
  some_text = some_text o;
  short = short o;
}
  where
    same :
        (o : Op)
        → token_of (plain_type (op o)) (text (plain (symbol (op o)))) ≡ plain (symbol (op o))
    same plus = refl
    same _ = refl

    solid : (o : Op) (rest : List ℕ) → Solid (text (plain (symbol (op o))) ++ rest)
    solid plus rest = refl
    solid _ rest = refl

    short : (o : Op) → fits (plain_type (op o)) (length (text (plain (symbol (op o))))) ≡ true
    short plus = refl
    short _ = refl

    some_text : (o : Op) → 0 < length (text (plain (symbol (op o))))
    some_text plus = omega arith
    some_text _ = omega arith

lparen-Lexable : Lexable (symbol lparen)
unfolding token_of
lparen-Lexable = record {
  found = bracket-Found.0;
  same = refl;
  solid = λ rest. refl;
  some_text = omega arith;
  short = refl;
}

rparen-Lexable : Lexable (symbol rparen)
unfolding token_of
rparen-Lexable = record {
  found = bracket-Found.1;
  same = refl;
  solid = λ rest. refl;
  some_text = omega arith;
  short = refl;
}

Spelled-Solid : {t : TokenType} {s : List ℕ} → Spelled t s → (rest : List ℕ) → Solid (s ++ rest)
Spelled-Solid (decimal c cs h lt) = λ rest. digit_ne_space c h.0
  where
    digit_ne_space : (c : ℕ) → is_digit c ≡ true → (c == b' ') ≡ false
    digit_ne_space c h = ground arith
Spelled-Solid (hexadecimal c cs h lt) = λ rest. refl
Spelled-Solid (register c cs h lt) = λ rest. refl

length-Spelled : {t : TokenType} {s : List ℕ} → Spelled t s → 0 < length s
length-Spelled (decimal c cs h lt) = omega arith
length-Spelled (hexadecimal c cs h lt) = omega arith
length-Spelled (register c cs h lt) = omega arith

Spelled-fits : {t : TokenType} {s : List ℕ} → Spelled t s → fits t (length s) ≡ true
Spelled-fits (decimal c cs h lt) = ground arith
Spelled-fits (hexadecimal c cs h lt) = ground arith
Spelled-fits (register c cs h lt) = ground arith

num-Lexable : (s : List ℕ) → Spelled num s → Lexable (record { type = num; str = s })
unfolding token_of
num-Lexable s h = record {
  found = Spelled-Found h;
  same = refl;
  solid = Spelled-Solid h;
  some_text = length-Spelled h;
  short = Spelled-fits h;
}

reg-Lexable : (s : List ℕ) → Spelled reg s → Lexable (record { type = reg; str = s })
unfolding token_of
reg-Lexable s h = record {
  found = Spelled-Found h;
  same = refl;
  solid = Spelled-Solid h;
  some_text = length-Spelled h;
  short = Spelled-fits h;
}

AllLexable-append : (ts us : List Token) → AllLexable ts → AllLexable us → AllLexable (ts ++ us)
AllLexable-append [] us h k = k
AllLexable-append (t ∷ ts) us h k = (h.0, AllLexable-append ts us h.1 k)

tokens-AllLexable : (e : Tree) → IsSpelled e → AllLexable (map plain (tokens e))
tokens-AllLexable (constant s) h = (num-Lexable s h, tt)
tokens-AllLexable (variable s) h = (reg-Lexable s h, tt)
tokens-AllLexable (unary o e) h = (plain-Lexable o, tokens-AllLexable e h)
tokens-AllLexable (binary o l r) h = rw (map-append plain (tokens l) (symbol (op o) ∷ tokens r)) (
    AllLexable-append (map plain (tokens l)) _ (tokens-AllLexable l h.0)
      (plain-Lexable o, tokens-AllLexable r h.1))
tokens-AllLexable (group e) h = (
  lparen-Lexable,
  rw (map-append plain (tokens e) (symbol rparen ∷ []))
      (AllLexable-append (map plain (tokens e)) _ (tokens-AllLexable e h) (rparen-Lexable, tt)),
)

length-map-plain : (ts : List Token) → length (map plain ts) ≡ length ts
length-map-plain [] = refl
length-map-plain (t ∷ ts) = ap suc (length-map-plain ts)

expr-lexed :
    (e : List ℕ) (ts : List Token)
    → make_token (length e) 0 e ≡ lexed ts
    → expr e ≡ eval (suc (length ts)) (mark false ts)
unfolding expr
expr-lexed e ts h = rw (h, expr) refl

-- A readable tree of at most 32 tokens, whose registers have names of at most 30 characters, typed with a
-- space after each token, evaluates to its value: precedence, associativity, brackets, signs, registers and memory as the tree has them.
pub expr-typed :
    (e : Tree) → IsReadable e → IsSpelled e → length (tokens e) ≤ 32 → expr (typed e) ≡ denote e
expr-typed e h sp le =
    let ts : List Token = map plain (tokens e) in
    let lexable = tokens-AllLexable e sp in
    let n = length-map-plain (tokens e) in
    let read : make_token (length (typed e)) 0 (typed e) ≡ lexed ts =
      make_token-spell ts (length (typed e)) 0 lexable (omega arith) (length-spell ts lexable) in
    expr-lexed (typed e) ts read
    ∙ rw (mark-tokens e h, n) (eval-tokens e (suc (length (tokens e))) h (omega arith))
