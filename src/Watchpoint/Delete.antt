-- ===== src/Watchpoint/Delete.antt =====
-- Deleting a watchpoint.
use nemu.Base.{ℕ, ◌≡◌, ◌≢◌, refl, ◌∙◌, arith, true, false, inl, inr}
use nemu.Base.{◌==◌, ==_iff, Bool-cases, Option, none, some, List, [], ◌∷◌}
use nemu.Machine.{update}
use nemu.Watchpoint.{Wp, Pool, nr_wp, free_wp, unlink, delete_watchpoint}
use nemu.Watchpoint.{found, absent, search_loop}
use nemu.Watchpoint.Chain.{
  has, remove, Chain-update, has-remove_self, has-remove, Distinct-remove, search_loop-absent,
  Unlinks, search_loop-found, length-remove, Numbered-update, Numbered-remove, Numbered-at, eq_self,
}
use nemu.Watchpoint.Contract.{Represents, free_wp-Represents}

module _ (wp : ℕ → Wp) (k : ℕ) (w : Wp) where
  update-expr : w.expr ≡ (wp k).expr → (a : ℕ) → (update wp k w a).expr ≡ (wp a).expr
  update-expr e a = ground arith

  update-old_val : w.old_val ≡ (wp k).old_val → (a : ℕ) → (update wp k w a).old_val ≡ (wp a).old_val
  update-old_val e a = ground arith

  update-no : w.no ≡ (wp k).no → (a : ℕ) → (update wp k w a).no ≡ (wp a).no
  update-no e a = ground arith

equal_of_eq : (m n : ℕ) → m ≡ n → (m == n) ≡ true
equal_of_eq m n e = ground arith

-- A watchpoint that has another number is passed.
number_ne : (m i x : ℕ) → m ≡ x → (i == x) ≡ false → (m == i) ≡ false
number_ne m i x e ne = ground arith

-- What an unlinked watchpoint leaves: it was found, and the list in use is without it.
record Unlinked (i : ℕ) (used free : List ℕ) (p : Pool) : Type 0 where
  prev : Option ℕ
  result : search_loop nr_wp p.wp_pool i none p.head ≡ found prev i
  rest : Represents 31 (remove i used) free (unlink prev i p)
  same : (a : ℕ) → ((unlink prev i p).wp_pool a).expr ≡ (p.wp_pool a).expr
  same_val : (a : ℕ) → ((unlink prev i p).wp_pool a).old_val ≡ (p.wp_pool a).old_val
  same_no : ((unlink prev i p).wp_pool i).no ≡ (p.wp_pool i).no

unlink_first :
    (x : ℕ) (xs free : List ℕ) (p : Pool)
    → Represents 32 (x ∷ xs) free p
    → Unlinked x (x ∷ xs) free p
unfolding unlink search_loop
unlink_first x xs free p r = record {
  prev = none;
  result = rw (r.heads.0, equal_of_eq _ x r.numbered.0) refl;
  rest = rw (eq_self x) (record {
    heads = r.heads.1;
    frees = r.frees;
    distinct = r.distinct.1;
    distinct_free = r.distinct_free;
    disjoint = λ a h. r.disjoint a (ground arith);
    numbered = r.numbered.1;
    numbered_free = r.numbered_free;
    inside = λ a h. r.inside a (ground arith);
    inside_free = r.inside_free;
    count = omega (arith, r.count);
  });
  same = λ a. refl;
  same_val = λ a. refl;
  same_no = refl;
}

unlink_later :
    (i x : ℕ) (xs free : List ℕ) (p : Pool)
    → Represents 32 (x ∷ xs) free p
    → (i == x) ≡ false
    → has i xs ≡ true
    → Unlinks p.wp_pool x xs i (search_loop 31 p.wp_pool i (some x) (p.wp_pool x).next)
    → Unlinked i (x ∷ xs) free p
unfolding unlink search_loop
unlink_later i x xs free p r ne h u = record {
  prev = some u.before;
  result = rw (r.heads.0, number_ne _ i x r.numbered.0 ne) u.result;
  rest = record {
    heads = rw (ne, r.heads.0) u.chain;
    frees = Chain-update p.wp_pool u.before _ p.free_ free (r.disjoint u.before u.member) r.frees;
    distinct = Distinct-remove i (x ∷ xs) r.distinct;
    distinct_free = r.distinct_free;
    disjoint = λ a m. r.disjoint a (has-remove i a (x ∷ xs) m);
    numbered =
        Numbered-update p.wp_pool u.before _ (remove i (x ∷ xs)) refl
          (Numbered-remove p.wp_pool i (x ∷ xs) r.numbered);
    numbered_free = Numbered-update p.wp_pool u.before _ free refl r.numbered_free;
    inside = λ a m. r.inside a (has-remove i a (x ∷ xs) m);
    inside_free = r.inside_free;
    count = omega (arith, r.count, length-remove i (x ∷ xs) (ground arith));
  };
  same = update-expr p.wp_pool u.before _ refl;
  same_val = update-old_val p.wp_pool u.before _ refl;
  same_no = update-no p.wp_pool u.before _ refl i;
}

unlinked :
    (i : ℕ) (used free : List ℕ) (p : Pool)
    → Represents 32 used free p
    → has i used ≡ true
    → Unlinked i used free p
unlinked i [] free p r h = absurd_mem h
  where
    absurd_mem : {A : Type 0} → has i [] ≡ true → A
    absurd_mem h = cc
unlinked i (x ∷ xs) free p r h = elim (Bool-cases (i == x)) [
  | inl e ↦ rw ((==_iff i x).0 e) (unlink_first x xs free p r)
  | inr ne ↦
      let later : has i xs ≡ true = ground arith in
      unlink_later i x xs free p r ne later (
        search_loop-found 31 p.wp_pool i x (p.wp_pool x).next xs refl r.heads.1 r.distinct
          r.numbered.1 later (omega (arith, r.count)))
]

deleted :
    (number : ℕ) (prev : Option ℕ) (i : ℕ) (p q : Pool)
    → search_loop nr_wp p.wp_pool number none p.head ≡ found prev i
    → free_wp i (unlink prev i p) ≡ some q
    → delete_watchpoint number p ≡ some (true, q)
unfolding delete_watchpoint
deleted number prev i p q e f = rw (e, delete_watchpoint, f) refl

-- Deleting a watchpoint in use takes it out of the list, keeps the order of the others and what each
-- watches, and gives it back to the free ones.
pub record Deletes (i : ℕ) (used free : List ℕ) (p : Pool) : Type 0 where
  pub after : Pool
  pub returns : delete_watchpoint i p ≡ some (true, after)
  pub represents : Represents 32 (remove i used) (i ∷ free) after
  pub expr : (a : ℕ) → a ≢ i → (after.wp_pool a).expr ≡ (p.wp_pool a).expr
  pub old_val : (a : ℕ) → a ≢ i → (after.wp_pool a).old_val ≡ (p.wp_pool a).old_val

-- From a pool that represents its two lists, the number of a watchpoint in use deletes that
-- watchpoint and no other.
pub delete_watchpoint-Deletes :
    (i : ℕ) (used free : List ℕ) (p : Pool)
    → Represents 32 used free p
    → has i used ≡ true
    → Deletes i used free p
delete_watchpoint-Deletes i used free p r h =
    let u = unlinked i used free p r h in
    let f =
      free_wp-Represents 31 i (remove i used) free (unlink u.prev i p) u.rest
        (has-remove_self i used r.distinct) (r.disjoint i h) (r.inside i h)
        (u.same_no ∙ Numbered-at p.wp_pool i used r.numbered h) in
    record {
      after = f.0;
      returns = deleted i u.prev i p f.0 u.result f.1;
      represents = f.2;
      expr = λ a ne. f.3.expr a ne ∙ u.same a;
      old_val = λ a ne. f.3.old_val a ne ∙ u.same_val a;
    }

not_found :
    (number : ℕ) (p : Pool)
    → search_loop nr_wp p.wp_pool number none p.head ≡ absent
    → delete_watchpoint number p ≡ some (false, p)
unfolding delete_watchpoint
not_found number p e = rw (e, delete_watchpoint) refl

-- A number that no watchpoint in use has deletes nothing, and says so.
pub delete_watchpoint-absent :
    (i : ℕ) (used free : List ℕ) (p : Pool)
    → Represents 32 used free p
    → has i used ≡ false
    → delete_watchpoint i p ≡ some (false, p)
delete_watchpoint-absent i used free p r h = not_found i p (
    search_loop-absent nr_wp p.wp_pool i none p.head used r.heads r.numbered h
      (omega (arith, r.count)))
