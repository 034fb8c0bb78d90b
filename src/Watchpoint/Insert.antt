-- ===== src/Watchpoint/Insert.antt =====
-- The pool at the start, and setting a watchpoint.
use nemu.Base.{ℕ, zero, suc, ◌+◌, ◌≤◌, ◌<◌, ◌≡◌, refl, ap, ◌∙◌, arith, true, false, inl, inr}
use nemu.Base.{◌⊎◌, Bool-cases, ==_iff, ◌==◌, none, some, List, [], ◌∷◌}
use nemu.Machine.{Machine, ok, panicked, update}
use nemu.Expr.{value, expr}
use nemu.Watchpoint.{Wp, Pool, nr_wp, init_loop, init_wp_pool, new_wp, link_new, set_watchpoint}
use nemu.Watchpoint.Chain.{has, Distinct, Chain, Chain-update, Numbered, Numbered-update, eq_self}
use nemu.Watchpoint.Contract.{Represents, SameBut}

abbrev pub upto : ℕ → ℕ → List ℕ
upto i zero = []
upto i (suc n) = i ∷ upto (i + 1) n

init_loop-before : (left i : ℕ) (wp : ℕ → Wp) (a : ℕ) → a < i → init_loop left i wp a ≡ wp a
unfolding init_loop
init_loop-before zero i wp a h = refl
init_loop-before (suc left) i wp a h =
    init_loop-before left (i + 1) _ a (omega arith) ∙ ground arith

init_loop-at :
    (left i : ℕ) (wp : ℕ → Wp) (a : ℕ)
    → i ≤ a
    → a < i + left
    → ((init_loop left i wp a).no ≡ a) × ((init_loop left i wp a).next ≡ some (a + 1))
unfolding init_loop
init_loop-at zero i wp a h lt = absurd (omega arith)
init_loop-at (suc left) i wp a h lt = elim (first_or_later i a h) [
  | inl e ↦
      rw
        (
          ← e,
          init_loop-before left (i + 1)
              (update wp i (record (wp i) { no = i; next = some (i + 1) })) i (omega arith),
          eq_self i,
        )
        (refl, refl)
  | inr later ↦ init_loop-at left (i + 1) _ a (omega arith) (omega arith)
]
  where
    first_or_later : (i a : ℕ) → i ≤ a → (i ≡ a) ⊎ (i < a)
    first_or_later i a h = omega arith

Chain-upto :
    (wp : ℕ → Wp) (n i : ℕ)
    → ((a : ℕ) → i ≤ a → a < i + n → (wp a).next ≡ some (a + 1))
    → (wp (i + n)).next ≡ none
    → Chain wp (some i) (upto i (suc n))
Chain-upto wp zero i h e = (refl, ap (λ (k : ℕ). (wp k).next) (omega arith) ∙ e)
Chain-upto wp (suc n) i h e = (
  refl,
  rw (h i (omega arith) (omega arith)) (
      Chain-upto wp n (i + 1) (λ a le lt. h a (omega arith) (omega arith))
        (ap (λ (k : ℕ). (wp k).next) (omega arith) ∙ e)),
)

Numbered-upto :
    (wp : ℕ → Wp) (n i : ℕ) → ((a : ℕ) → i ≤ a → a < i + n → (wp a).no ≡ a) → Numbered wp (upto i n)
Numbered-upto wp zero i h = tt
Numbered-upto wp (suc n) i h = (
  h i (omega arith) (omega arith),
  Numbered-upto wp n (i + 1) (λ a le lt. h a (omega arith) (omega arith)),
)

has-upto : (n i a : ℕ) → has a (upto i n) ≡ true → (i ≤ a) × (a < i + n)
has-upto zero i a h = cc
has-upto (suc n) i a h = ground (arith, has-upto n (i + 1) a)

has-upto_below : (n i a : ℕ) → a < i → has a (upto i n) ≡ false
has-upto_below zero i a lt = refl
has-upto_below (suc n) i a lt = ground (arith, has-upto_below n (i + 1) a)

Distinct-upto : (n i : ℕ) → Distinct (upto i n)
Distinct-upto zero i = tt
Distinct-upto (suc n) i = (has-upto_below n (i + 1) i (omega arith), Distinct-upto n (i + 1))

-- The start leaves all 32 watchpoints free, in order.
pub init_wp_pool-Represents : (p : Pool) → Represents 32 [] (upto 0 32) (init_wp_pool p)
unfolding init_wp_pool
init_wp_pool-Represents p = record {
  heads = refl;
  frees = Chain-upto (init_wp_pool p).wp_pool 31 0 (λ a le lt. links a lt) refl;
  distinct = tt;
  distinct_free = Distinct-upto 32 0;
  disjoint = λ a h. cc;
  numbered = tt;
  numbered_free = Numbered-upto (init_wp_pool p).wp_pool 32 0 (λ a le lt. numbers a lt);
  inside = λ a h. cc;
  inside_free = λ a h. omega (arith, (has-upto 32 0 a h).1);
  count = refl;
}
  where
    links : (a : ℕ) → a < 31 → ((init_wp_pool p).wp_pool a).next ≡ some (a + 1)
    links a lt = ground (arith, init_loop-at 32 0 p.wp_pool a)

    numbers : (a : ℕ) → a < 32 → ((init_wp_pool p).wp_pool a).no ≡ a
    numbers a lt = ground (arith, init_loop-at 32 0 p.wp_pool a, init_loop-at 32 0 p.wp_pool 31)

-- A watchpoint set on an expression with a value: the first free one, in front of those in use.
pub record Sets (e : List ℕ) (v i : ℕ) (used free : List ℕ) (p : Pool) (s t : Machine)
    : Type 0 where
  pub after : Pool
  pub returns : set_watchpoint e p s ≡ ok (some i, after) t
  pub represents : Represents 32 (i ∷ used) free after
  pub watches : (after.wp_pool i).expr ≡ e
  pub old_value : (after.wp_pool i).old_val ≡ v
  pub same : SameBut i p after

abbrev taken : ℕ → Pool → Pool
taken i p = record p { free_ = (p.wp_pool i).next }

abbrev linked : List ℕ → ℕ → ℕ → Pool → Pool
linked e v i q = record q {
  wp_pool = update q.wp_pool i (record (q.wp_pool i) { expr = e; old_val = v; next = q.head });
  head = some i;
}

new_wp-some : (i : ℕ) (p : Pool) → p.free_ ≡ some i → new_wp p ≡ some (i, taken i p)
unfolding new_wp
new_wp-some i p f = rw (f, new_wp) refl

new_wp-none : (p : Pool) → p.free_ ≡ none → new_wp p ≡ none
unfolding new_wp
new_wp-none p f = rw (f, new_wp) refl

set_value :
    (e : List ℕ) (v i : ℕ) (p : Pool) (s t : Machine)
    → expr e s ≡ ok (value v) t
    → p.free_ ≡ some i
    → set_watchpoint e p s ≡ ok (some (p.wp_pool i).no, linked e v i (taken i p)) t
unfolding set_watchpoint link_new
set_value e v i p s t h f = rw (h, set_watchpoint, new_wp-some i p f) refl

-- With all watchpoints in use, setting one more stops the emulator.
pub set_watchpoint_full :
    (e : List ℕ) (v : ℕ) (used : List ℕ) (p : Pool) (s t : Machine)
    → Represents 32 used [] p
    → expr e s ≡ ok (value v) t
    → set_watchpoint e p s ≡ panicked
unfolding set_watchpoint link_new
set_watchpoint_full e v used p s t r h = rw (h, set_watchpoint, new_wp-none p r.frees) refl

disjoint_linked :
    (i a : ℕ) (used free : List ℕ)
    → has i free ≡ false
    → (has a used ≡ true → has a (i ∷ free) ≡ false)
    → has a (i ∷ used) ≡ true
    → has a free ≡ false
disjoint_linked i a used free f d m = elim (Bool-cases (a == i)) [
  | inl e ↦ rw ((==_iff a i).0 e) f
  | inr ne ↦ ground (arith, d)
]

inside_linked :
    (i a : ℕ) (used free : List ℕ)
    → (has a used ≡ true → a < nr_wp)
    → (has a (i ∷ free) ≡ true → a < nr_wp)
    → has a (i ∷ used) ≡ true
    → a < nr_wp
inside_linked i a used free u f m = ground (arith, u, f)

-- From a pool with a free watchpoint, an expression that evaluates to a value is watched from then on.
pub set_watchpoint-Sets :
    (e : List ℕ) (v i : ℕ) (used free : List ℕ) (p : Pool) (s t : Machine)
    → Represents 32 used (i ∷ free) p
    → expr e s ≡ ok (value v) t
    → Sets e v i used free p s t
set_watchpoint-Sets e v i used free p s t r h = record {
  after = linked e v i (taken i p);
  returns = set_value e v i p s t h r.frees.0 ∙ rw (r.numbered_free.0) refl;
  represents = record {
    heads = (refl, rw (eq_self i) (Chain-update p.wp_pool i _ p.head used unused r.heads));
    frees = Chain-update p.wp_pool i _ (p.wp_pool i).next free r.distinct_free.0 r.frees.1;
    distinct = (unused, r.distinct);
    distinct_free = r.distinct_free.1;
    disjoint = λ a m. disjoint_linked i a used free r.distinct_free.0 (r.disjoint a) m;
    numbered =
        (rw (eq_self i) r.numbered_free.0, Numbered-update p.wp_pool i _ used refl r.numbered);
    numbered_free = Numbered-update p.wp_pool i _ free refl r.numbered_free.1;
    inside = λ a m. inside_linked i a used free (r.inside a) (r.inside_free a) m;
    inside_free = λ a m. r.inside_free a (ground arith);
    count = omega (arith, r.count);
  };
  watches = rw (eq_self i) refl;
  old_value = rw (eq_self i) refl;
  same = record { expr = λ a ne. ground arith; old_val = λ a ne. ground arith };
}
  where
    unused : has i used ≡ false
    unused = ground (arith, r.disjoint i)
