-- ===== src/Expr/Denote.antt =====
-- Evaluation of the tokens of a tree is the value of the tree.
use nemu.Base.{ℕ, zero, suc, ◌+◌, ◌-◌, ◌≤◌, ◌<◌, ◌≡◌, refl, ap, ◌∙◌, arith, true, false}
use nemu.Base.{some, List, [], ◌∷◌, ◌++◌, length, length-append}
use nemu.Base.{drop, take-append}
use nemu.Machine.{M, ◌>>=◌}
use nemu.Expr.Tokens.{Op, Token, lparen, rparen, op, is_rparen, is_unary}
use nemu.Expr.{Value, on_value, apply_unary, apply_binary, wrapped, closes, inner}
use nemu.Expr.{eval, eval_range, eval_at, eval_token, find_dominated_op}
use nemu.Expr.Tree.{
  Tree, constant, variable, unary, binary, group, tokens, symbol, IsReadable, denote,
}
use nemu.Expr.Scan.{find_dominated_op-tokens}

module _ {ℓ} {A : Type ℓ} where
  drop_past : (xs : List A) (y : A) (ys : List A) → drop (suc (length xs)) (xs ++ (y ∷ ys)) ≡ ys
  drop_past [] y ys = refl
  drop_past (x ∷ xs) y ys = drop_past xs y ys

pub closes-snoc : (ts : List Token) (t : Token) → closes (ts ++ (t ∷ [])) ≡ is_rparen t.type
closes-snoc [] t = refl
closes-snoc (u ∷ []) t = refl
closes-snoc (u ∷ v ∷ ts) t = closes-snoc (v ∷ ts) t

pub length-tokens_pos : (e : Tree) → 0 < length (tokens e)
length-tokens_pos (constant s) = omega arith
length-tokens_pos (variable s) = omega arith
length-tokens_pos (unary o e) = omega arith
length-tokens_pos (binary o l r) =
    omega (arith, length-append (tokens l) (symbol (op o) ∷ tokens r))
length-tokens_pos (group e) = omega arith

module _ (run : List Token → M Value) where
  pub eval_range-wrapped :
      (ts : List Token) → 2 ≤ length ts → wrapped ts ≡ true → eval_range run ts ≡ run (inner ts)
  unfolding eval_range
  eval_range-wrapped [] h w = absurd (omega arith)
  eval_range-wrapped (t ∷ []) h w = absurd (omega arith)
  eval_range-wrapped (t ∷ u ∷ ts) h w = rw w refl

  eval_range_dominated :
      (ts : List Token) (i : ℕ) (o : Op)
      → 2 ≤ length ts
      → wrapped ts ≡ false
      → find_dominated_op ts ≡ some (i, o)
      → eval_range run ts ≡ eval_at run ts i o
  unfolding eval_range
  eval_range_dominated [] i o h w d = absurd (omega arith)
  eval_range_dominated (t ∷ []) i o h w d = absurd (omega arith)
  eval_range_dominated (t ∷ u ∷ ts) i o h w d = rw (w, d) refl

  eval_at-unary :
      (o : Op) (e : Tree)
      → is_unary o ≡ true
      → eval_at run (tokens (unary o e)) 0 o ≡ (run (tokens e) >>= on_value (apply_unary o))
  unfolding eval_at
  eval_at-unary o e u = rw u refl

  eval_at-binary :
      (o : Op) (l r : Tree)
      → is_unary o ≡ false
      → eval_at run (tokens (binary o l r)) (length (tokens l)) o ≡ (
          run (tokens l)
          >>= on_value (λ val1. run (tokens r) >>= on_value (λ val2. apply_binary o val1 val2)))
  unfolding eval_at
  eval_at-binary o l r u =
      rw
        (
          u,
          take-append (tokens l) (symbol (op o) ∷ tokens r),
          drop_past (tokens l) (symbol (op o)) (tokens r),
        )
        refl

inner-group : (e : Tree) → inner (tokens (group e)) ≡ tokens e
inner-group e =
    let n : length (tokens (group e)) - 2 ≡ length (tokens e) =
      omega (arith, length-append (tokens e) (symbol rparen ∷ [])) in
    rw n (take-append (tokens e) (symbol rparen ∷ []))

-- With more fuel than the tokens of a readable tree need, the tokens evaluate to the value of the tree:
-- the dominating operator is the one at its root.
pub eval-tokens :
    (e : Tree) (fuel : ℕ)
    → IsReadable e
    → length (tokens e) < fuel
    → eval fuel (tokens e) ≡ denote e
unfolding eval denote eval_range eval_token
eval-tokens e zero h lt = absurd (omega arith)
eval-tokens (constant s) (suc fuel) h lt = refl
eval-tokens (variable s) (suc fuel) h lt = refl
eval-tokens (unary o e) (suc fuel) h lt =
    eval_range_dominated (eval fuel) (tokens (unary o e)) 0 o (omega (arith, length-tokens_pos e))
      refl (find_dominated_op-tokens (unary o e) h)
    ∙ eval_at-unary (eval fuel) o e h.0
    ∙ ap (λ (m : M Value). m >>= on_value (apply_unary o)) (eval-tokens e fuel h.2 (omega arith))
eval-tokens (binary o l r) (suc fuel) h lt =
    let n : length (tokens (binary o l r)) ≡ length (tokens l) + suc (length (tokens r)) =
      length-append (tokens l) (symbol (op o) ∷ tokens r) in
    let el = eval-tokens l fuel h.4 (omega arith) in
    let er = eval-tokens r fuel h.5 (omega arith) in
    eval_range_dominated (eval fuel) (tokens (binary o l r)) (length (tokens l)) o
      (omega (arith, length-tokens_pos l, length-tokens_pos r)) h.3
      (find_dominated_op-tokens (binary o l r) h ∙ ap (λ (i : ℕ). some (i, o)) (omega arith))
    ∙ eval_at-binary (eval fuel) o l r h.0
    ∙ rw (el, er) refl
eval-tokens (group e) (suc fuel) h lt =
    let n = length-append (tokens e) (symbol rparen ∷ []) in
    eval_range-wrapped (eval fuel) (tokens (group e)) (omega (arith, n))
      (closes-snoc (symbol lparen ∷ tokens e) (symbol rparen))
    ∙ ap (λ (ts : List Token). eval fuel ts) (inner-group e)
    ∙ eval-tokens e fuel h (omega (arith, n))
