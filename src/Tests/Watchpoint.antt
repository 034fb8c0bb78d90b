-- ===== src/Tests/Watchpoint.antt =====
-- Tests of the pool of watchpoints.
use nemu.Base.{◌≡◌, refl, none, some, []}
use nemu.Machine.{ok}
use nemu.Expr.{expr, value, eval, eval_range, eval_at, eval_token, mark}
use nemu.Expr.Text.{codes, strtoul, digits_value, digit_value}
use nemu.Expr.Lex.{make_token, first_match, run_length, one_char, two_chars, spaces, hex_number}
use nemu.Expr.Lex.{dec_number, reg_name, token_of}
use nemu.Watchpoint.{Pool, init_wp_pool}
use nemu.Watchpoint.Insert.{upto, init_wp_pool-Represents, Sets, set_watchpoint-Sets}
use nemu.Watchpoint.Delete.{Deletes, delete_watchpoint-Deletes}
use nemu.Watchpoint.Reach.{Reach, start, set, InOrder, Reach-InOrder}
use nemu.Tests.{reset}

abbrev zeroed : Pool
zeroed = record {
  wp_pool = λ i. record { no = 0; next = none; expr = []; old_val = 0 };
  head = none;
  free_ = none;
}

one : expr (codes "1") reset ≡ ok (value 1) reset
unfolding expr eval eval_range eval_at eval_token mark strtoul digits_value digit_value make_token
    first_match run_length one_char two_chars spaces hex_number dec_number reg_name token_of
one = refl

set_watchpoint-Sets_example : Sets (codes "1") 1 0 [] (upto 1 31) (init_wp_pool zeroed) reset reset
set_watchpoint-Sets_example =
    set_watchpoint-Sets (codes "1") 1 0 [] (upto 1 31) (init_wp_pool zeroed) reset reset
      (init_wp_pool-Represents zeroed) one

-- The same watchpoint once more, without the theorem about a set.
first : Sets (codes "1") 1 0 [] (upto 1 31) (init_wp_pool zeroed) reset reset
first =
    set_watchpoint-Sets (codes "1") 1 0 [] (upto 1 31) (init_wp_pool zeroed) reset reset
      (init_wp_pool-Represents zeroed) one

first-Reach : Reach first.after
first-Reach = set reset reset (some 0) (codes "1") (start zeroed) first.returns

Reach-InOrder_example : InOrder first.after
Reach-InOrder_example = Reach-InOrder first-Reach

delete_watchpoint-Deletes_example : Deletes 0 (upto 0 1) (upto 1 31) first.after
delete_watchpoint-Deletes_example =
    delete_watchpoint-Deletes 0 (upto 0 1) (upto 1 31) first.after first.represents refl
