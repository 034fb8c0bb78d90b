-- ===== src/Expr/Groups.antt =====
-- An operation on two bracketed operands: the outer brackets are taken for a pair.
use mathlib.Core.List.{append_assoc}
use nemu.Base.{ℕ, suc, ◌≤◌, ◌<◌, ◌≡◌, refl, ap, ◌∙◌, arith, false}
use nemu.Base.{none, List, [], ◌∷◌, ◌++◌, length, length-append, take, take-append}
use nemu.Machine.{M, pure}
use nemu.Expr.Tokens.{Op, Token, lparen, rparen, op}
use nemu.Expr.{Value, failed, wrapped, opens, inner, eval, eval_range}
use nemu.Expr.{find_dominated_op, find_loop, find_step}
use nemu.Expr.Tree.{Tree, binary, group, tokens, symbol, IsReadable}
use nemu.Expr.Scan.{find_loop-top}
use nemu.Expr.Denote.{eval_range-wrapped, closes-snoc, length-tokens_pos}

eval_range-none :
    (run : List Token → M Value) (ts : List Token)
    → 2 ≤ length ts
    → wrapped ts ≡ false
    → find_dominated_op ts ≡ none
    → eval_range run ts ≡ pure failed
unfolding eval_range
eval_range-none run [] h w d = absurd (omega arith)
eval_range-none run (t ∷ []) h w d = absurd (omega arith)
eval_range-none run (t ∷ u ∷ ts) h w d = rw (w, d) refl

-- The range inside the outer brackets of `(a) o (b)`.
abbrev between : Op → Tree → Tree → List Token
between o a b = tokens a ++ (symbol rparen ∷ symbol (op o) ∷ symbol lparen ∷ tokens b)

two_groups :
    (o : Op) (a b : Tree)
    → tokens (binary o (group a) (group b))
      ≡ symbol lparen ∷ (between o a b ++ (symbol rparen ∷ []))
two_groups o a b = ap (λ (ts : List Token). symbol lparen ∷ ts) (simp append_assoc)

opens-append : (ts us : List Token) → 0 < length ts → opens (ts ++ us) ≡ opens ts
opens-append [] us h = absurd (omega arith)
opens-append (t ∷ ts) us h = refl

find_dominated_op-between :
    (o : Op) (a b : Tree) → IsReadable a → find_dominated_op (between o a b) ≡ none
unfolding find_dominated_op find_loop find_step
find_dominated_op-between o a b h =
    find_loop-top a (symbol rparen ∷ symbol (op o) ∷ symbol lparen ∷ tokens b) 0 none h

inner-wrapped : (ts : List Token) → inner (symbol lparen ∷ (ts ++ (symbol rparen ∷ []))) ≡ ts
inner-wrapped ts =
    ap (λ (n : ℕ). take n (ts ++ (symbol rparen ∷ [])))
      (omega (arith, length-append ts (symbol rparen ∷ [])))
    ∙ take-append ts (symbol rparen ∷ [])

-- An operation on two bracketed operands is refused, whatever the operator, where the left one does
-- not itself begin with a bracket.
pub eval-two_groups :
    (fuel : ℕ) (o : Op) (a b : Tree)
    → IsReadable a
    → opens (tokens a) ≡ false
    → eval (suc (suc fuel)) (tokens (binary o (group a) (group b))) ≡ pure failed
unfolding eval
eval-two_groups fuel o a b h not_open =
    let n = length-append (tokens a) (symbol rparen ∷ symbol (op o) ∷ symbol lparen ∷ tokens b) in
    rw (two_groups o a b) (
      eval_range-wrapped (eval (suc fuel)) (symbol lparen ∷ (between o a b ++ (symbol rparen ∷ [])))
        (omega (arith, length-append (between o a b) (symbol rparen ∷ [])))
        (closes-snoc (symbol lparen ∷ between o a b) (symbol rparen))
      ∙ ap (λ (ts : List Token). eval (suc fuel) ts) (inner-wrapped (between o a b))
      ∙ eval_range-none (eval fuel) (between o a b) (omega (arith, n))
          (rw (opens-append (tokens a) _ (length-tokens_pos a), not_open) refl)
          (find_dominated_op-between o a b h))
