-- ===== src/Expr/Fuel.antt =====
-- Evaluation ends: the number of tokens is fuel enough.
use nemu.Base.{ℕ, zero, suc, ◌+◌, ◌-◌, ◌≤◌, ◌<◌, ◌≡◌, ◌≢◌, refl, arith}
use nemu.Base.{◌==◌, Option, none, some, List, [], ◌∷◌, length, take, drop}
use nemu.Base.{length-take, length-drop}
use nemu.Machine.{Machine, M, ok, panicked, pure, ◌>>=◌}
use nemu.Machine.Laws.{OkOnly, Yields, pure-Yields, if-Yields, bind-Yields, then-Yields}
use nemu.Vaddr.{vaddr_read_safe}
use nemu.Expr.Tokens.{Op, TokenType, Token, num, reg, lparen, rparen, op, is_unary}
use nemu.Expr.Tokens.{plus, minus, times, over, percent, eq_eq, bang_eq, and_and, or_or}
use nemu.Expr.Tokens.{bang, neg, ref}
use nemu.Expr.Text.{isa_reg_str2val}
use nemu.Expr.{Dominated, dominate, find_loop, find_step, find_dominated_op, wrapped, inner}
use nemu.Expr.{Value, value, failed, exhausted, on_value, apply_unary, apply_binary, reg_value}
use nemu.Expr.{eval, eval_range, eval_at, eval_token}

-- The operator stands before an index.
abbrev Before : Dominated → ℕ → Type 0
Before none n = Unit {0}
Before (some (j, o)) n = j < n

dominate-Before : (d : Dominated) (i : ℕ) (o : Op) → Before d i → Before (dominate d i o) (i + 1)
unfolding dominate
dominate-Before none i o h = omega arith
dominate-Before (some (j, p)) i o h = ground arith

Before-mono : (d : Dominated) (m n : ℕ) → m ≤ n → Before d m → Before d n
Before-mono none m n le h = tt
Before-mono (some (j, o)) m n le h = omega arith

abbrev Keeps : ℕ → ℕ → (ℕ → Dominated → Dominated) → Type 0
Keeps i n next = (k : ℕ) (d : Dominated) → Before d (i + 1) → Before (next k d) n

find_step-Before :
    (t : TokenType) (i n k : ℕ) (d : Dominated) (next : ℕ → Dominated → Dominated)
    → Before d i
    → Keeps i n next
    → Before (find_step t i k d next) n
unfolding find_step
find_step-Before num i n k d next h keep = keep k d (Before-mono d i (i + 1) (omega arith) h)
find_step-Before reg i n k d next h keep = keep k d (Before-mono d i (i + 1) (omega arith) h)
find_step-Before lparen i n k d next h keep =
    keep (suc k) d (Before-mono d i (i + 1) (omega arith) h)
find_step-Before rparen i n zero d next h keep = tt
find_step-Before rparen i n (suc k) d next h keep =
    keep k d (Before-mono d i (i + 1) (omega arith) h)
find_step-Before (op o) i n zero d next h keep =
    keep zero (dominate d i o) (dominate-Before d i o h)
find_step-Before (op o) i n (suc k) d next h keep =
    keep (suc k) d (Before-mono d i (i + 1) (omega arith) h)

find_loop-Before :
    (ts : List Token) (i n k : ℕ) (d : Dominated)
    → i + length ts ≡ n
    → Before d i
    → Before (find_loop ts i k d) n
unfolding find_loop
find_loop-Before [] i n k d e h = Before-mono d i n (omega arith) h
find_loop-Before (t ∷ ts) i n k d e h =
    find_step-Before t.type i n k d (find_loop ts (i + 1)) h
      (λ k' d' h'. find_loop-Before ts (i + 1) n k' d' (omega arith) h')

-- The operator found is one of the tokens.
find_dominated_op-Before : (ts : List Token) → Before (find_dominated_op ts) (length ts)
unfolding find_dominated_op
find_dominated_op-Before ts = find_loop-Before ts 0 (length ts) 0 none (omega arith) tt

abbrev pub Ends : M Value → Type 0
Ends m = Yields (λ v. v ≢ exhausted) m

value-ends : (v : ℕ) → value v ≢ exhausted
value-ends v h = cc

failed-ends : failed ≢ exhausted
failed-ends h = cc

value-Ends : (v : ℕ) → Ends (pure (value v))
value-Ends v = pure-Yields (value v) (value-ends v)

pub failed-Ends : Ends (pure failed)
failed-Ends = pure-Yields failed failed-ends

pub panic-Ends : Ends (λ s. panicked)
panic-Ends = record { run = λ s. tt }

on_value-Ends :
    {m : M Value} {k : ℕ → M Value} → Ends m → ((v : ℕ) → Ends (k v)) → Ends (m >>= on_value k)
on_value-Ends {m} {k} h next = bind-Yields h (λ v ne. after v ne)
  where
    after : (v : Value) → v ≢ exhausted → Ends (on_value k v)
    after (value v) ne = next v
    after failed ne = failed-Ends
    after exhausted ne = absurd (ne refl)

apply_unary-Ends : (o : Op) (v : ℕ) → Ends (apply_unary o v)
unfolding apply_unary
apply_unary-Ends bang v = value-Ends _
apply_unary-Ends neg v = value-Ends _
apply_unary-Ends ref v = then-Yields (vaddr_read_safe v 4) (λ w. value-Ends w)
apply_unary-Ends plus v = panic-Ends
apply_unary-Ends minus v = panic-Ends
apply_unary-Ends _ v = panic-Ends

apply_binary-Ends : (o : Op) (v w : ℕ) → Ends (apply_binary o v w)
unfolding apply_binary
apply_binary-Ends plus v w = value-Ends _
apply_binary-Ends minus v w = value-Ends _
apply_binary-Ends times v w = value-Ends _
apply_binary-Ends over v w = if-Yields (w == 0) panic-Ends (value-Ends _)
apply_binary-Ends percent v w = if-Yields (w == 0) panic-Ends (value-Ends _)
apply_binary-Ends eq_eq v w = value-Ends _
apply_binary-Ends bang_eq v w = value-Ends _
apply_binary-Ends and_and v w = value-Ends _
apply_binary-Ends or_or v w = value-Ends _
apply_binary-Ends bang v w = panic-Ends
apply_binary-Ends _ v w = panic-Ends

reg_value-Ends : (name : List ℕ) → Ends (reg_value name)
unfolding reg_value
reg_value-Ends name = record { run = λ s. found s (isa_reg_str2val name s) }
  where
    found :
        (s : Machine) (v : Option ℕ)
        → OkOnly (λ v. v ≢ exhausted) (elim v [ some v ↦ ok (value v) s | none ↦ ok failed s ])
    found s none = failed-ends
    found s (some v) = value-ends v

eval_token-Ends : (t : TokenType) (str : List ℕ) → Ends (eval_token t str)
unfolding eval_token
eval_token-Ends num str = value-Ends _
eval_token-Ends reg str = reg_value-Ends (drop 1 str)
eval_token-Ends lparen str = panic-Ends
eval_token-Ends _ str = panic-Ends

-- `run` ends on every range that is shorter than `n`.
abbrev EndsBelow : ℕ → (List Token → M Value) → Type 0
EndsBelow n run = (ts : List Token) → length ts < n → Ends (run ts)

eval_at-Ends :
    (run : List Token → M Value) (ts : List Token) (i : ℕ) (o : Op)
    → i < length ts
    → EndsBelow (length ts) run
    → Ends (eval_at run ts i o)
unfolding eval_at
eval_at-Ends run ts i o lt below =
    let right = below (drop (suc i) ts) (omega (arith, length-drop (suc i) ts)) in
    if-Yields (is_unary o) (on_value-Ends right (apply_unary-Ends o)) (
      on_value-Ends (below (take i ts) (omega (arith, length-take i ts)))
        (λ val1. on_value-Ends right (λ val2. apply_binary-Ends o val1 val2)))

length-inner : (ts : List Token) → 2 ≤ length ts → length (inner ts) < length ts
length-inner ts h = omega (arith, length-take (length ts - 2) (drop 1 ts))

eval_range-Ends :
    (run : List Token → M Value) (ts : List Token)
    → EndsBelow (length ts) run
    → Ends (eval_range run ts)
unfolding eval_range
eval_range-Ends run [] below = failed-Ends
eval_range-Ends run (t ∷ []) below = eval_token-Ends t.type t.str
eval_range-Ends run (t ∷ u ∷ ts) below =
    if-Yields (wrapped (t ∷ u ∷ ts))
      (below (inner (t ∷ u ∷ ts)) (length-inner (t ∷ u ∷ ts) (omega arith)))
      (found (find_dominated_op (t ∷ u ∷ ts)) (find_dominated_op-Before (t ∷ u ∷ ts)))
  where
    found :
        (d : Dominated)
        → Before d (length (t ∷ u ∷ ts))
        → Ends (elim d [ none ↦ pure failed | some (i, o) ↦ eval_at run (t ∷ u ∷ ts) i o ])
    found none h = failed-Ends
    found (some (i, o)) h = eval_at-Ends run (t ∷ u ∷ ts) i o h below

-- More fuel than there are tokens is enough for an evaluation.
pub eval-Ends : (fuel : ℕ) (ts : List Token) → length ts < fuel → Ends (eval fuel ts)
unfolding eval
eval-Ends zero ts lt = absurd (omega arith)
eval-Ends (suc fuel) ts lt =
    eval_range-Ends (eval fuel) ts (λ us below. eval-Ends fuel us (omega arith))
