-- ===== src/Watchpoint/Reach.antt =====
-- Pools that the program reaches from the start, by any commands in any states of the machine.
use nemu.Base.{ℕ, ◌≡◌, ◌≢◌, refl, sym, ap, ◌∙◌, Bool, true, false, inl, inr, ◌⊎◌, Bool-cases}
use nemu.Base.{Option, none, some, List, [], ◌∷◌}
use nemu.Machine.{Machine, Outcome, ok, raised, panicked}
use nemu.Expr.{Value, value, failed, exhausted, expr}
use nemu.Watchpoint.{Pool, init_wp_pool, set_watchpoint, delete_watchpoint}
use nemu.Watchpoint.Chain.{has, remove}
use nemu.Watchpoint.Contract.{Represents}
use nemu.Watchpoint.Delete.{delete_watchpoint-Deletes, delete_watchpoint-absent}
use nemu.Watchpoint.Insert.{upto, init_wp_pool-Represents, set_watchpoint-Sets, set_watchpoint_full}

pub data Reach : Pool → Type 0 where
  start : (p : Pool) → Reach (init_wp_pool p)
  set :
      {p q : Pool} (s t : Machine) (number : Option ℕ) (e : List ℕ)
      → Reach p
      → set_watchpoint e p s ≡ ok (number, q) t
      → Reach q
  delete :
      {p q : Pool} (was_there : Bool) (number : ℕ)
      → Reach p
      → delete_watchpoint number p ≡ some (was_there, q)
      → Reach q

-- Two disjoint lists that hold all 32 watchpoints.
pub record InOrder (p : Pool) : Type 0 where
  pub used : List ℕ
  pub free : List ℕ
  pub represents : Represents 32 used free p

moved : {p q : Pool} → p ≡ q → InOrder p → InOrder q
moved e o = rw (← e) o

pool_of : Pool → Outcome (Option ℕ × Pool) → Pool
pool_of p (ok (number, q) t) = q
pool_of p (raised ex t) = p
pool_of p panicked = p

pool_of_delete : Pool → Option (Bool × Pool) → Pool
pool_of_delete p none = p
pool_of_delete p (some (was_there, q)) = q

set_failed :
    (e : List ℕ) (p : Pool) (s t : Machine) (v : Value)
    → expr e s ≡ ok v t
    → (v ≡ failed) ⊎ (v ≡ exhausted)
    → set_watchpoint e p s ≡ ok (none, p) t
unfolding set_watchpoint
set_failed e p s t v h (inl f) = rw (h, set_watchpoint, f) refl
set_failed e p s t v h (inr f) = rw (h, set_watchpoint, f) refl

abbrev Set : Type 0
Set = Option ℕ × Pool

raised_ne : (ex : ℕ) (u t : Machine) (x : Set) → raised ex u ≢ ok x t
raised_ne ex u t x e = cc

panicked_ne : (t : Machine) (x : Set) → panicked ≢ ok x t
panicked_ne t x e = cc

set_left :
    (e : List ℕ) (p q : Pool) (s t : Machine) (number : Option ℕ) (r : Outcome Value)
    → expr e s ≡ r
    → set_watchpoint e p s ≡ ok (number, q) t
    → (v : Value) × (u : Machine) × (expr e s ≡ ok v u)
unfolding set_watchpoint
set_left e p q s t number (ok v u) h e' = (v, u, h)
set_left e p q s t number (raised ex u) h e' =
    absurd (raised_ne ex u t (number, q) (sym (rw (h, set_watchpoint) refl) ∙ e'))
set_left e p q s t number panicked h e' =
    absurd (panicked_ne t (number, q) (sym (rw (h, set_watchpoint) refl) ∙ e'))

set-InOrder :
    (e : List ℕ) (p q : Pool) (s t u : Machine) (number : Option ℕ) (v : Value)
    → InOrder p
    → expr e s ≡ ok v u
    → set_watchpoint e p s ≡ ok (number, q) t
    → InOrder q
unfolding pool_of
set-InOrder e p q s t u number failed o h eq =
    moved (ap (pool_of p) (sym (set_failed e p s u failed h (inl refl)) ∙ eq)) o
set-InOrder e p q s t u number exhausted o h eq =
    moved (ap (pool_of p) (sym (set_failed e p s u exhausted h (inr refl)) ∙ eq)) o
set-InOrder e p q s t u number (value v) o h eq = with_free o.free o.represents
  where
    with_free : (free : List ℕ) → Represents 32 o.used free p → InOrder q
    with_free [] r =
        absurd (panicked_ne t (number, q) (sym (set_watchpoint_full e v o.used p s u r h) ∙ eq))
    with_free (i ∷ free) r =
        let set = set_watchpoint-Sets e v i o.used free p s u r h in
        moved (ap (pool_of p) (sym set.returns ∙ eq))
          record { used = i ∷ o.used; free = free; represents = set.represents }

delete-InOrder :
    (number : ℕ) (p q : Pool) (was_there : Bool)
    → InOrder p
    → delete_watchpoint number p ≡ some (was_there, q)
    → InOrder q
unfolding pool_of_delete
delete-InOrder number p q was_there o eq = elim (Bool-cases (has number o.used)) [
  | inl h ↦
      let d = delete_watchpoint-Deletes number o.used o.free p o.represents h in
      moved (ap (pool_of_delete p) (sym d.returns ∙ eq))
        record { used = remove number o.used; free = number ∷ o.free; represents = d.represents }
  | inr h ↦
      moved
        (ap (pool_of_delete p)
          (sym (delete_watchpoint-absent number o.used o.free p o.represents h) ∙ eq))
        o
]

-- In every pool that commands reach from the start, the watchpoints in use and the free ones are two
-- disjoint lists that hold all 32.
pub Reach-InOrder : {p : Pool} → Reach p → InOrder p
Reach-InOrder (start p) = record {
  used = [];
  free = upto 0 32;
  represents = init_wp_pool-Represents p;
}
Reach-InOrder (set {p} {q} s t number e r eq) =
    let left = set_left e p q s t number (expr e s) refl eq in
    set-InOrder e p q s t left.1 number left.0 (Reach-InOrder r) left.2 eq
Reach-InOrder (delete {p} {q} was_there number r eq) =
    delete-InOrder number p q was_there (Reach-InOrder r) eq

-- In a pool that commands reach, a deletion returns, whatever the number: no assertion fails, and the
-- search ends.
pub delete_watchpoint-returns :
    {p : Pool} (number : ℕ)
    → Reach p
    → (was_there : Bool) × (q : Pool) × (delete_watchpoint number p ≡ some (was_there, q))
delete_watchpoint-returns {p} number r =
    let o = Reach-InOrder r in
    elim (Bool-cases (has number o.used)) [
      | inl h ↦
          let d = delete_watchpoint-Deletes number o.used o.free p o.represents h in
          (true, d.after, d.returns)
      | inr h ↦ (false, p, delete_watchpoint-absent number o.used o.free p o.represents h)
    ]
