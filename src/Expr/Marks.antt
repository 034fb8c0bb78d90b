-- ===== src/Expr/Marks.antt =====
-- The signs that are typed: a negation is a `-` and a reference a `*`, told apart by what is before.
use mathlib.Core.List.{append_assoc, append-nil, map-append}
use nemu.Base.{◌≡◌, refl, ap, ◌∙◌, true, false, List, [], ◌∷◌, ◌++◌, map}
use nemu.Expr.Tokens.{Op, TokenType, Token, lparen, rparen, op, is_unary}
use nemu.Expr.Tokens.{plus, minus, times, over, percent, eq_eq, bang_eq, and_and, or_or}
use nemu.Expr.Tokens.{bang, neg, ref}
use nemu.Expr.{mark}
use nemu.Expr.Tree.{Tree, constant, variable, unary, binary, group, tokens, symbol, IsReadable}

-- What is typed for a token.
abbrev pub plain_type : TokenType → TokenType
plain_type (op neg) = op minus
plain_type (op ref) = op times
plain_type t = t

abbrev pub plain : Token → Token
plain t = record t { type = plain_type t.type }

mark-unary :
    (o : Op) (ts : List Token)
    → is_unary o ≡ true
    → mark false (plain (symbol (op o)) ∷ ts) ≡ symbol (op o) ∷ mark false ts
unfolding mark
mark-unary bang ts u = refl
mark-unary neg ts u = refl
mark-unary ref ts u = refl
mark-unary plus ts u = cc
mark-unary minus ts u = cc
mark-unary times ts u = cc
mark-unary over ts u = cc
mark-unary percent ts u = cc
mark-unary eq_eq ts u = cc
mark-unary bang_eq ts u = cc
mark-unary and_and ts u = cc
mark-unary or_or ts u = cc

mark-binary :
    (o : Op) (ts : List Token)
    → is_unary o ≡ false
    → mark true (plain (symbol (op o)) ∷ ts) ≡ symbol (op o) ∷ mark false ts
unfolding mark
mark-binary bang ts u = cc
mark-binary neg ts u = cc
mark-binary ref ts u = cc
mark-binary plus ts u = refl
mark-binary minus ts u = refl
mark-binary times ts u = refl
mark-binary over ts u = refl
mark-binary percent ts u = refl
mark-binary eq_eq ts u = refl
mark-binary bang_eq ts u = refl
mark-binary and_and ts u = refl
mark-binary or_or ts u = refl

mark-plain :
    (e : Tree) (rest : List Token)
    → IsReadable e
    → mark false (map plain (tokens e) ++ rest) ≡ tokens e ++ mark true rest
unfolding mark
mark-plain (constant s) rest h = refl
mark-plain (variable s) rest h = refl
mark-plain (unary o e) rest h =
    mark-unary o (map plain (tokens e) ++ rest) h.0
    ∙ ap (λ (ts : List Token). symbol (op o) ∷ ts) (mark-plain e rest h.2)
mark-plain (binary o l r) rest h =
    simp (map-append, append_assoc)
      (mark-plain l (plain (symbol (op o)) ∷ (map plain (tokens r) ++ rest)) h.4
        ∙ ap (λ (ts : List Token). tokens l ++ ts)
            (mark-binary o (map plain (tokens r) ++ rest) h.0
              ∙ ap (λ (ts : List Token). symbol (op o) ∷ ts) (mark-plain r rest h.5)))
mark-plain (group e) rest h =
    ap (λ (ts : List Token). symbol lparen ∷ ts)
      (simp (map-append, append_assoc) (mark-plain e (symbol rparen ∷ rest) h))

-- The signs of a readable tree, as they are typed, are marked as those of the tree.
pub mark-tokens : (e : Tree) → IsReadable e → mark false (map plain (tokens e)) ≡ tokens e
unfolding mark
mark-tokens e h = simp append-nil at (mark-plain e [] h)
