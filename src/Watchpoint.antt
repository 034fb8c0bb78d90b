-- ===== src/Watchpoint.antt =====
-- The pool of watchpoints (monitor/watchpoint.c): two lists linked through one array. A pointer into
-- wp_pool is its index.
pub mod Chain
pub mod Contract
pub mod Delete
pub mod Insert
pub mod Reach
use nemu.Base.{ℕ, zero, suc, ◌+◌, ◌≡◌, Bool, true, false, ltb, ◌==◌, ◌!=◌, if◌then◌else◌}
use nemu.Base.{Option, none, some, List, [], ◌∷◌}
use nemu.Machine.{M, pure, panic, update, ◌>>=◌}
use nemu.Expr.{Value, value, failed, exhausted, expr}

pub record Wp : Type 0 where
  pub no : ℕ
  pub next : Option ℕ
  pub expr : List ℕ
  pub old_val : ℕ

pub record Pool : Type 0 where
  pub wp_pool : ℕ → Wp
  pub head : Option ℕ
  pub free_ : Option ℕ

abbrev pub nr_wp : ℕ
nr_wp = 32

-- The loop, from watchpoint `i` on, with `left` to go.
unfoldable pub init_loop : ℕ → ℕ → (ℕ → Wp) → ℕ → Wp
init_loop zero i wp = wp
init_loop (suc left) i wp =
    init_loop left (i + 1) (update wp i (record (wp i) { no = i; next = some (i + 1) }))

unfoldable pub init_wp_pool : Pool → Pool
init_wp_pool p =
    let wp = init_loop nr_wp 0 p.wp_pool in
    record { wp_pool = update wp 31 (record (wp 31) { next = none }); head = none; free_ = some 0 }

-- `none` is the failed assertion.
unfoldable pub new_wp : Pool → Option (ℕ × Pool)
new_wp p = elim p.free_ [ none ↦ none | some i ↦ some (i, record p { free_ = (p.wp_pool i).next }) ]

unfoldable pub free_wp : ℕ → Pool → Option Pool
free_wp i p =
    if ltb i nr_wp
    then some (record p {
      wp_pool = update p.wp_pool i (record (p.wp_pool i) { next = p.free_ });
      free_ = some i;
    })
    else none

-- The part of set_watchpoint after new_WP, whose assertion may have failed.
unfoldable pub link_new : List ℕ → ℕ → Option (ℕ × Pool) → M (Option ℕ × Pool)
link_new e val none = panic
link_new e val (some (i, q)) = pure (
  some (q.wp_pool i).no,
  record q {
    wp_pool = update q.wp_pool i (record (q.wp_pool i) { expr = e; old_val = val; next = q.head });
    head = some i;
  },
)

-- The number of the new watchpoint, `none` for -1, with the pool after it.
unfoldable pub set_watchpoint : List ℕ → Pool → M (Option ℕ × Pool)
set_watchpoint e p = expr e >>= λ v. elim v [
  | failed ↦ pure (none, p)
  | exhausted ↦ pure (none, p)
  | value val ↦ link_new e val (new_wp p)
]

-- How the search for a number ends: past the end, at a watchpoint with the one before it, or out of
-- fuel.
pub data Search : Type 0 where
  absent : Search
  found : Option ℕ → ℕ → Search
  out_of_fuel : Search

unfoldable pub search_loop : ℕ → (ℕ → Wp) → ℕ → Option ℕ → Option ℕ → Search
search_loop fuel wp number prev none = absent
search_loop zero wp number prev (some i) = out_of_fuel
search_loop (suc fuel) wp number prev (some i) =
    let rest = search_loop fuel wp number (some i) (wp i).next in
    if (wp i).no == number then found prev i else rest

unfoldable pub unlink : Option ℕ → ℕ → Pool → Pool
unlink none i p = record p { head = (p.wp_pool i).next }
unlink (some j) i p = record p {
  wp_pool = update p.wp_pool j (record (p.wp_pool j) { next = (p.wp_pool i).next });
}

-- Whether there was such a watchpoint, and the pool after it; `none` where an assertion fails, or the
-- fuel.
unfoldable pub delete_watchpoint : ℕ → Pool → Option (Bool × Pool)
delete_watchpoint number p = elim (search_loop nr_wp p.wp_pool number none p.head) [
  | absent ↦ some (false, p)
  | out_of_fuel ↦ none
  | found prev i ↦ elim (free_wp i (unlink prev i p)) [ none ↦ none | some q ↦ some (true, q) ]
]

-- The new value of an expression; expr() returns 0 where it fails.
abbrev pub new_value : Value → ℕ
new_value (value v) = v
new_value failed = 0
new_value exhausted = 0

-- The loop over the watchpoints: it stops at the first whose value has changed, and says whether
-- there is one.
unfoldable pub scan_loop : ℕ → Option ℕ → Pool → M (Bool × Pool)
scan_loop fuel none p = pure (false, p)
scan_loop zero (some i) p = pure (false, p)
scan_loop (suc fuel) (some i) p = expr (p.wp_pool i).expr >>= λ v.
    (if (p.wp_pool i).old_val != new_value v
      then pure (
        true,
        record p { wp_pool = update p.wp_pool i (record (p.wp_pool i) { old_val = new_value v }) },
      )
      else scan_loop fuel (p.wp_pool i).next p)

unfoldable pub scan_watchpoint : Pool → M (Bool × Pool)
scan_watchpoint p = scan_loop nr_wp p.head p
