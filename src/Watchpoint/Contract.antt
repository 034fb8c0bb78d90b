-- ===== src/Watchpoint/Contract.antt =====
-- The pool as two disjoint lists: the watchpoints in use, the newest first, and the free ones.
use nemu.Base.{ℕ, suc, ◌+◌, ◌<◌, ◌≡◌, ◌≢◌, refl, arith, true, false}
use nemu.Base.{ltb_iff, some, List, ◌∷◌, length}
use nemu.Machine.{update}
use nemu.Watchpoint.{Pool, nr_wp, free_wp}
use nemu.Watchpoint.Chain.{has, Distinct, Chain, Chain-update, Numbered, Numbered-update, eq_self}

-- `used` and `free` hold `n` watchpoints of the array.
pub record Represents (n : ℕ) (used free : List ℕ) (p : Pool) : Type 0 where
  pub heads : Chain p.wp_pool p.head used
  pub frees : Chain p.wp_pool p.free_ free
  pub distinct : Distinct used
  pub distinct_free : Distinct free
  pub disjoint : (a : ℕ) → has a used ≡ true → has a free ≡ false
  pub numbered : Numbered p.wp_pool used
  pub numbered_free : Numbered p.wp_pool free
  pub inside : (a : ℕ) → has a used ≡ true → a < nr_wp
  pub inside_free : (a : ℕ) → has a free ≡ true → a < nr_wp
  pub count : length used + length free ≡ n

-- No watchpoint but `k` changes what it watches.
pub record SameBut (k : ℕ) (p q : Pool) : Type 0 where
  pub expr : (a : ℕ) → a ≢ k → (q.wp_pool a).expr ≡ (p.wp_pool a).expr
  pub old_val : (a : ℕ) → a ≢ k → (q.wp_pool a).old_val ≡ (p.wp_pool a).old_val

-- A watchpoint outside both lists is put in front of the free ones.
pub free_wp-Represents :
    (n i : ℕ) (used free : List ℕ) (p : Pool)
    → Represents n used free p
    → has i used ≡ false
    → has i free ≡ false
    → i < nr_wp
    → (p.wp_pool i).no ≡ i
    → (q : Pool) × (free_wp i p ≡ some q) × Represents (suc n) used (i ∷ free) q × SameBut i p q
unfolding free_wp
free_wp-Represents n i used free p r u f lt e = (
  record p {
    wp_pool = update p.wp_pool i (record (p.wp_pool i) { next = p.free_ });
    free_ = some i;
  },
  rw ((ltb_iff i nr_wp).1 lt) refl,
  record {
    heads = Chain-update p.wp_pool i _ p.head used u r.heads;
    frees = (refl, rw (eq_self i) (Chain-update p.wp_pool i _ p.free_ free f r.frees));
    distinct = r.distinct;
    distinct_free = (f, r.distinct_free);
    disjoint = λ a h. ground (arith, r.disjoint a h);
    numbered = Numbered-update p.wp_pool i _ used refl r.numbered;
    numbered_free = (rw (eq_self i) e, Numbered-update p.wp_pool i _ free refl r.numbered_free);
    inside = r.inside;
    inside_free = λ a h. ground (arith, r.inside_free a);
    count = omega (arith, r.count);
  },
  record { expr = λ a ne. ground arith; old_val = λ a ne. ground arith },
)
