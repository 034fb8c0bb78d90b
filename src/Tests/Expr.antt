-- ===== src/Tests/Expr.antt =====
-- Tests of the debugger's expressions.
use nemu.Base.{◌≡◌, refl, arith, []}
use nemu.Machine.{ok}
use nemu.Expr.{expr, value, failed, eval, eval_range, eval_at, eval_token, mark, apply_binary}
use nemu.Expr.{apply_unary, find_dominated_op, find_loop, find_step, dominate}
use nemu.Expr.Tokens.{op_prec, plus, times, neg}
use nemu.Expr.Text.{codes, strtoul, digits_value, digit_value}
use nemu.Expr.Lex.{make_token, first_match, run_length, one_char, two_chars, spaces, hex_number}
use nemu.Expr.Lex.{dec_number, reg_name, token_of}
use nemu.Expr.Tree.{Tree, constant, variable, unary, binary, group, denote, IsReadable}
use nemu.Expr.Fuel.{Ends}
use nemu.Expr.Ends.{expr-Ends}
use nemu.Expr.Spell.{decimal, hexadecimal, register}
use nemu.Expr.Typed.{typed, IsSpelled, expr-typed}
use nemu.Tests.{reset}

expr-precedence : expr (codes "1 + 2*-3 == 0x10-21 && 010 == 8") reset ≡ ok (value 1) reset
unfolding expr eval eval_range eval_at eval_token mark apply_binary apply_unary find_dominated_op
    find_loop find_step dominate op_prec strtoul digits_value digit_value make_token first_match
    run_length one_char two_chars spaces hex_number dec_number reg_name token_of
expr-precedence = refl

expr-two_brackets : expr (codes "(1)+(2)") reset ≡ ok failed reset
unfolding expr eval eval_range eval_at eval_token mark find_dominated_op find_loop find_step
    make_token first_match run_length one_char two_chars spaces hex_number dec_number reg_name
    token_of
expr-two_brackets = refl

abbrev product : Tree
product = binary times (constant (codes "2")) (group (unary neg (constant (codes "0x10"))))

-- `$a0 + 2 * ( - 0x10 )`.
abbrev sum : Tree
sum = binary plus (variable (codes "$a0")) product

sum-IsReadable : IsReadable sum
unfolding op_prec
sum-IsReadable = (
  refl,
  omega arith,
  omega arith,
  refl,
  tt,
  (refl, omega arith, omega arith, refl, tt, (refl, refl, tt)),
)

sum-IsSpelled : IsSpelled sum
sum-IsSpelled = (
  register b'a' (codes "0") (refl, (refl, tt)) (omega arith),
  (
    decimal b'2' [] (refl, tt) (omega arith),
    hexadecimal b'1' (codes "0") (refl, (refl, tt)) (omega arith),
  ),
)

expr-typed_example : expr (typed sum) ≡ denote sum
expr-typed_example = expr-typed sum sum-IsReadable sum-IsSpelled (omega arith)

expr-Ends_example : Ends (expr (codes "1 + * $zz"))
expr-Ends_example = expr-Ends (codes "1 + * $zz")
