-- ===== src/Expr.antt =====
-- The expressions of the debugger (utils/expr.c): tokens, the operator that binds loosest, evaluation.
-- A range of the array of tokens is the list of its tokens.
pub mod Tokens
pub mod Text
pub mod Lex
pub mod Tree
pub mod Scan
pub mod Denote
pub mod Fuel
pub mod Ends
pub mod Marks
pub mod Spell
pub mod Read
pub mod Typed
pub mod Groups
use nemu.Base.{ℕ, zero, suc, ◌+◌, ◌-◌, ◌*◌, ◌/◌, ◌%◌, ◌^◌, Bool, true, false, not, ◌&&◌, ◌||◌}
use nemu.Base.{
  ◌==◌, ◌!=◌, ltb, if◌then◌else◌, Option, none, some, List, [], ◌∷◌, length, take, drop,
}
use nemu.Base.{u64}
use nemu.Machine.{Machine, M, ok, pure, panic, get, ◌>>=◌, ◌>>◌, and_then}
use nemu.Vaddr.{vaddr_read_safe}
use nemu.Expr.Tokens.{Op, TokenType, Token, num, reg, lparen, rparen, op, is_lparen, is_rparen}
use nemu.Expr.Tokens.{plus, minus, times, over, percent, eq_eq, bang_eq, and_and, or_or}
use nemu.Expr.Tokens.{bang, neg, ref, is_unary, op_prec}
use nemu.Expr.Text.{strtoul, isa_reg_str2val}
use nemu.Expr.Lex.{make_token, lexed, no_match, overrun, out_of_fuel}

-- The operator found so far, with its index.
abbrev pub Dominated : Type 0
Dominated = Option (ℕ × Op)

-- The choice between the operator found so far and that at `i`.
unfoldable pub dominate : Dominated → ℕ → Op → Dominated
dominate none i o = some (i, o)
dominate (some (j, p)) i o =
    if ltb (op_prec p) (op_prec o) || ((op_prec p == op_prec o) && not (is_unary o))
    then some (i, o)
    else some (j, p)

-- One round at the index `i`, where `next` is the rest of the loop; a bracket that closes none ends it.
unfoldable pub find_step : TokenType → ℕ → ℕ → Dominated → (ℕ → Dominated → Dominated) → Dominated
find_step num i bracket_level dominated_op next = next bracket_level dominated_op
find_step reg i bracket_level dominated_op next = next bracket_level dominated_op
find_step lparen i bracket_level dominated_op next = next (suc bracket_level) dominated_op
find_step rparen i zero dominated_op next = none
find_step rparen i (suc bracket_level) dominated_op next = next bracket_level dominated_op
find_step (op o) i zero dominated_op next = next zero (dominate dominated_op i o)
find_step (op o) i (suc bracket_level) dominated_op next = next (suc bracket_level) dominated_op

-- The loop from the index `i` on; `none` where it fails or finds no operator.
unfoldable pub find_loop : List Token → ℕ → ℕ → Dominated → Dominated
find_loop [] i bracket_level dominated_op = dominated_op
find_loop (t ∷ ts) i bracket_level dominated_op =
    find_step t.type i bracket_level dominated_op (find_loop ts (i + 1))

unfoldable pub find_dominated_op : List Token → Dominated
find_dominated_op ts = find_loop ts 0 0 none

-- What an evaluation returns: a value with `*success`, a failure, or nothing for lack of fuel.
pub data Value : Type 0 where
  value : ℕ → Value
  failed : Value
  exhausted : Value

-- The part of the code after `if (!*success) { return 0; }`.
abbrev pub on_value : (ℕ → M Value) → Value → M Value
on_value k (value v) = k v
on_value k failed = pure failed
on_value k exhausted = pure exhausted

abbrev pub truth_value : Bool → ℕ
truth_value b = if b then 1 else 0

unfoldable pub apply_unary : Op → ℕ → M Value
apply_unary bang val = pure (value (truth_value (val == 0)))
apply_unary neg val = pure (value (u64 (2 ^ 64 - val)))
apply_unary ref val = vaddr_read_safe val 4 >>= λ v. pure (value v)
apply_unary _ val = panic

-- A division by zero stops the emulator, by a signal of the host.
abbrev pub divide : ℕ → ℕ → M Value
divide val2 v = if val2 == 0 then panic else pure (value v)

unfoldable pub apply_binary : Op → ℕ → ℕ → M Value
apply_binary plus val1 val2 = pure (value (u64 (val1 + val2)))
apply_binary minus val1 val2 = pure (value (u64 (val1 + (2 ^ 64 - val2))))
apply_binary times val1 val2 = pure (value (u64 (val1 * val2)))
apply_binary over val1 val2 = divide val2 (val1 / val2)
apply_binary percent val1 val2 = divide val2 (val1 % val2)
apply_binary eq_eq val1 val2 = pure (value (truth_value (val1 == val2)))
apply_binary bang_eq val1 val2 = pure (value (truth_value (val1 != val2)))
apply_binary and_and val1 val2 = pure (value (truth_value ((val1 != 0) && (val2 != 0))))
apply_binary or_or val1 val2 = pure (value (truth_value ((val1 != 0) || (val2 != 0))))
apply_binary _ val1 val2 = panic

unfoldable pub reg_value : List ℕ → M Value
reg_value name s = elim (isa_reg_str2val name s) [ some v ↦ ok (value v) s | none ↦ ok failed s ]

-- A single token; any other than a number or a register fails an assertion.
unfoldable pub eval_token : TokenType → List ℕ → M Value
eval_token num str = pure (value (strtoul str))
eval_token reg str = reg_value (drop 1 str)
eval_token _ str = panic

abbrev pub opens : List Token → Bool
opens [] = false
opens (t ∷ ts) = is_lparen t.type

abbrev pub closes : List Token → Bool
closes [] = false
closes (t ∷ []) = is_rparen t.type
closes (t ∷ u ∷ ts) = closes (u ∷ ts)

-- `tokens[s].type == '(' && tokens[e].type == ')'`, and the range between the two.
abbrev pub wrapped : List Token → Bool
wrapped ts = opens ts && closes ts

abbrev pub inner : List Token → List Token
inner ts = take (length ts - 2) (drop 1 ts)

-- The last part of eval, where `run` is eval itself.
unfoldable pub eval_at : (List Token → M Value) → List Token → ℕ → Op → M Value
eval_at run ts i o =
    if is_unary o
    then (run (drop (suc i) ts) >>= on_value (apply_unary o))
    else (run (take i ts)
        >>= on_value
            (λ val1. run (drop (suc i) ts) >>= on_value (λ val2. apply_binary o val1 val2)))

unfoldable pub eval_range : (List Token → M Value) → List Token → M Value
eval_range run [] = pure failed
eval_range run (t ∷ []) = eval_token t.type t.str
eval_range run (t ∷ u ∷ ts) =
    if wrapped (t ∷ u ∷ ts)
    then run (inner (t ∷ u ∷ ts))
    else elim (find_dominated_op (t ∷ u ∷ ts)) [
      | none ↦ pure failed
      | some (i, o) ↦ eval_at run (t ∷ u ∷ ts) i o
    ]

unfoldable pub eval : ℕ → List Token → M Value
eval zero ts = pure exhausted
eval (suc fuel) ts = eval_range (eval fuel) ts

-- Whether a token ends an operand, so that a `-` or `*` after it has two operands.
abbrev pub ends_operand : TokenType → Bool
ends_operand num = true
ends_operand reg = true
ends_operand rparen = true
ends_operand _ = false

abbrev pub mark_type : Bool → TokenType → TokenType
mark_type after_operand (op minus) = if after_operand then op minus else op neg
mark_type after_operand (op times) = if after_operand then op times else op ref
mark_type after_operand t = t

-- The loop that detects TK_NEG and TK_REF.
unfoldable pub mark : Bool → List Token → List Token
mark after_operand [] = []
mark after_operand (t ∷ ts) =
    record t { type = mark_type after_operand t.type }
    ∷ mark (ends_operand (mark_type after_operand t.type)) ts

-- A write past the array of tokens, or past the text of a token, stops the emulator.
unfoldable pub expr : List ℕ → M Value
expr e = elim (make_token (length e) 0 e) [
  | lexed ts ↦ eval (suc (length ts)) (mark false ts)
  | no_match ↦ pure failed
  | overrun ↦ panic
  | out_of_fuel ↦ pure exhausted
]
