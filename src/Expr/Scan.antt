-- ===== src/Expr/Scan.antt =====
-- The search for the operator that binds loosest finds the outermost operator of a tree.
use mathlib.Core.List.{append_assoc, append-nil}
use nemu.Base.{ℕ, suc, ◌+◌, ◌≤◌, ◌<◌, ◌≡◌, refl, sym, ap, ◌∙◌, arith, true, false}
use nemu.Base.{none, some, List, [], ◌∷◌, ◌++◌, length, length-append}
use nemu.Expr.Tokens.{Op, Token, rparen, op, is_unary, op_prec}
use nemu.Expr.Tokens.{
  plus, minus, times, over, percent, eq_eq, bang_eq, and_and, or_or, bang, neg, ref,
}
use nemu.Expr.{Dominated, dominate, find_step, find_loop, find_dominated_op}
use nemu.Expr.Tree.{
  Tree, constant, variable, unary, binary, group, tokens, symbol, looseness, IsReadable,
}

shift :
    (rest : List Token) (k : ℕ) (d : Dominated) (i j : ℕ)
    → i ≡ j
    → find_loop rest i k d ≡ find_loop rest j k d
shift rest k d i j e = ap (λ (n : ℕ). find_loop rest n k d) e

-- Within brackets a tree is passed over.
find_loop-inside :
    (e : Tree) (rest : List Token) (i k : ℕ) (d : Dominated)
    → find_loop (tokens e ++ rest) i (suc k) d ≡ find_loop rest (i + length (tokens e)) (suc k) d
unfolding find_loop find_step
find_loop-inside (constant s) rest i k d = refl
find_loop-inside (variable s) rest i k d = refl
find_loop-inside (unary o e) rest i k d =
    find_loop-inside e rest (i + 1) k d ∙ shift rest (suc k) d _ _ (omega arith)
find_loop-inside (binary o l r) rest i k d =
    ap (λ (ts : List Token). find_loop ts i (suc k) d)
      (append_assoc (tokens l) (symbol (op o) ∷ tokens r) rest)
    ∙ find_loop-inside l (symbol (op o) ∷ (tokens r ++ rest)) i k d
    ∙ find_loop-inside r rest (i + length (tokens l) + 1) k d
    ∙ shift rest (suc k) d _ _ (omega (arith, length-append (tokens l) (symbol (op o) ∷ tokens r)))
find_loop-inside (group e) rest i k d =
    ap (λ (ts : List Token). find_loop ts (i + 1) (suc (suc k)) d)
      (append_assoc (tokens e) (symbol rparen ∷ []) rest)
    ∙ find_loop-inside e (symbol rparen ∷ rest) (i + 1) (suc k) d
    ∙ shift rest (suc k) d _ _ (omega (arith, length-append (tokens e) (symbol rparen ∷ [])))

-- The outermost operator, with its index where the tree begins at `i`.
abbrev pub top : ℕ → Tree → Dominated
top i (unary o e) = some (i, o)
top i (binary o l r) = some (i + length (tokens l), o)
top i _ = none

abbrev pub merge : Dominated → Dominated → Dominated
merge d none = d
merge d (some (i, o)) = dominate d i o

-- An operator with two operands wins over a left operand that binds as tight, and over a right
-- operand that binds tighter.
dominate_over_left :
    (d : Dominated) (j i : ℕ) (p o : Op)
    → op_prec p ≤ op_prec o
    → is_unary o ≡ false
    → dominate (dominate d j p) i o ≡ dominate d i o
unfolding dominate
dominate_over_left none j i p o h u = ground arith
dominate_over_left (some (k, q)) j i p o h u = ground arith

dominate_over_right :
    (d : Dominated) (j i : ℕ) (p o : Op)
    → op_prec p < op_prec o
    → dominate (dominate d i o) j p ≡ dominate d i o
unfolding dominate
dominate_over_right none j i p o h = ground arith
dominate_over_right (some (k, q)) j i p o h = ground arith

dominate_over_unary :
    (d : Dominated) (j i : ℕ) (p o : Op)
    → op_prec p ≡ 0
    → is_unary p ≡ true
    → dominate (dominate d i o) j p ≡ dominate d i o
unfolding dominate
dominate_over_unary none j i p o h u = ground arith
dominate_over_unary (some (k, q)) j i p o h u = ground arith

op_prec-unary : (o : Op) → is_unary o ≡ true → op_prec o ≡ 0
unfolding op_prec
op_prec-unary bang h = refl
op_prec-unary neg h = refl
op_prec-unary ref h = refl
op_prec-unary plus h = cc
op_prec-unary minus h = cc
op_prec-unary times h = cc
op_prec-unary over h = cc
op_prec-unary percent h = cc
op_prec-unary eq_eq h = cc
op_prec-unary bang_eq h = cc
op_prec-unary and_and h = cc
op_prec-unary or_or h = cc

op_prec-binary : (o : Op) → is_unary o ≡ false → 0 < op_prec o
unfolding op_prec
op_prec-binary bang h = cc
op_prec-binary neg h = cc
op_prec-binary ref h = cc
op_prec-binary plus h = omega arith
op_prec-binary minus h = omega arith
op_prec-binary times h = omega arith
op_prec-binary over h = omega arith
op_prec-binary percent h = omega arith
op_prec-binary eq_eq h = omega arith
op_prec-binary bang_eq h = omega arith
op_prec-binary and_and h = omega arith
op_prec-binary or_or h = omega arith

merge_unary :
    (e : Tree) (d : Dominated) (i j : ℕ) (o : Op)
    → IsReadable e
    → looseness e ≡ 0
    → merge (dominate d i o) (top j e) ≡ dominate d i o
merge_unary (constant s) d i j o h z = refl
merge_unary (variable s) d i j o h z = refl
merge_unary (unary p e) d i j o h z = dominate_over_unary d j i p o (op_prec-unary p h.0) h.0
merge_unary (binary p l r) d i j o h z = absurd (omega (arith, op_prec-binary p h.0))
merge_unary (group e) d i j o h z = refl

merge_left :
    (l : Tree) (d : Dominated) (i k : ℕ) (o : Op)
    → IsReadable l
    → looseness l ≤ op_prec o
    → is_unary o ≡ false
    → dominate (merge d (top i l)) k o ≡ dominate d k o
merge_left (constant s) d i k o h le u = refl
merge_left (variable s) d i k o h le u = refl
merge_left (unary p e) d i k o h le u =
    dominate_over_left d i k p o (omega (arith, op_prec-unary p h.0)) u
merge_left (binary p l r) d i k o h le u = dominate_over_left d (i + length (tokens l)) k p o le u
merge_left (group e) d i k o h le u = refl

merge_right :
    (r : Tree) (d : Dominated) (k j : ℕ) (o : Op)
    → IsReadable r
    → looseness r < op_prec o
    → merge (dominate d k o) (top j r) ≡ dominate d k o
merge_right (constant s) d k j o h lt = refl
merge_right (variable s) d k j o h lt = refl
merge_right (unary p e) d k j o h lt =
    dominate_over_right d j k p o (omega (arith, op_prec-unary p h.0))
merge_right (binary p l r) d k j o h lt = dominate_over_right d (j + length (tokens l)) k p o lt
merge_right (group e) d k j o h lt = refl

pub find_loop-top :
    (e : Tree) (rest : List Token) (i : ℕ) (d : Dominated)
    → IsReadable e
    → find_loop (tokens e ++ rest) i 0 d
      ≡ find_loop rest (i + length (tokens e)) 0 (merge d (top i e))
unfolding find_loop find_step
find_loop-top (constant s) rest i d h = refl
find_loop-top (variable s) rest i d h = refl
find_loop-top (unary o e) rest i d h =
    find_loop-top e rest (i + 1) (dominate d i o) h.2
    ∙ ap (λ (m : Dominated). find_loop rest (i + 1 + length (tokens e)) 0 m)
        (merge_unary e d i (i + 1) o h.2 h.1)
    ∙ shift rest 0 (dominate d i o) _ _ (omega arith)
find_loop-top (binary o l r) rest i d h =
    let k : ℕ = i + length (tokens l) in
    ap (λ (ts : List Token). find_loop ts i 0 d)
      (append_assoc (tokens l) (symbol (op o) ∷ tokens r) rest)
    ∙ find_loop-top l (symbol (op o) ∷ (tokens r ++ rest)) i d h.4
    ∙ ap (λ (m : Dominated). find_loop (tokens r ++ rest) (k + 1) 0 m)
        (merge_left l d i k o h.4 h.1 h.0)
    ∙ find_loop-top r rest (k + 1) (dominate d k o) h.5
    ∙ ap (λ (m : Dominated). find_loop rest (k + 1 + length (tokens r)) 0 m)
        (merge_right r d k (k + 1) o h.5 h.2)
    ∙ shift rest 0 (dominate d k o) _ _
        (omega (arith, length-append (tokens l) (symbol (op o) ∷ tokens r)))
find_loop-top (group e) rest i d h =
    ap (λ (ts : List Token). find_loop ts (i + 1) 1 d)
      (append_assoc (tokens e) (symbol rparen ∷ []) rest)
    ∙ find_loop-inside e (symbol rparen ∷ rest) (i + 1) 0 d
    ∙ shift rest 0 d _ _ (omega (arith, length-append (tokens e) (symbol rparen ∷ [])))

merge-none : (d : Dominated) → merge none d ≡ d
unfolding dominate
merge-none none = refl
merge-none (some (i, o)) = refl

-- The search over the tokens of a tree gives its outermost operator.
pub find_dominated_op-tokens : (e : Tree) → IsReadable e → find_dominated_op (tokens e) ≡ top 0 e
unfolding find_dominated_op find_loop
find_dominated_op-tokens e h =
    ap (λ (ts : List Token). find_loop ts 0 0 none) (sym (append-nil (tokens e)))
    ∙ find_loop-top e [] 0 none h
    ∙ merge-none (top 0 e)
