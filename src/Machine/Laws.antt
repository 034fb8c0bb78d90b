-- ===== src/Machine/Laws.antt =====
-- Equations of state updates, and postconditions of computations.
use mathlib.Core.Path.{fun_ext}
use nemu.Base.{ℕ, ◌≡◌, ◌≢◌, refl, sym, ap, arith, Bool, true, false, not, if◌then◌else◌}
use nemu.Machine.{
  Machine, Outcome, ok, raised, panicked, M, update, set_csr, when, write_csr, on_csr, and_then,
  ◌>>=◌, ◌>>◌, pure, csr,
}

pub update_self : (f : ℕ → ℕ) (k : ℕ) → update f k (f k) ≡ f
update_self f k = fun_ext λ i. ground (arith)

module _ {ℓ} {A : Type ℓ} where
  pub update-other : (f : ℕ → A) (k : ℕ) (v : A) (i : ℕ) → i ≢ k → update f k v i ≡ f i
  update-other f k v i ne = ground arith

  pub update-same : (f : ℕ → A) (k : ℕ) (v : A) (i : ℕ) → i ≡ k → update f k v i ≡ v
  update-same f k v i e = ground arith

-- A guarded write is a write of the old or of the new value.
pub when-write_csr :
    (keeps : Bool) (a v : ℕ) (s : Machine)
    → when (not keeps) (write_csr a v) s ≡ ok tt (set_csr a (if keeps then s.csr_array a else v) s)
when-write_csr false a v s = refl
when-write_csr true a v s =
    ap (λ (f : ℕ → ℕ). ok tt (record s { csr_array = f })) (sym (update_self s.csr_array a))

-- A guarded change of a register.
pub when-on_csr :
    (b : Bool) (a : ℕ) (f : ℕ → ℕ) (s : Machine)
    → when b (on_csr a f) s ≡ ok tt (set_csr a (if b then f (s.csr_array a) else s.csr_array a) s)
when-on_csr true a f s = refl
when-on_csr false a f s =
    ap (λ (g : ℕ → ℕ). ok tt (record s { csr_array = g })) (sym (update_self s.csr_array a))

-- The state in which a call ends, if it does not stop the emulator.
abbrev pub Ends : {A : Type 0} → (Machine → Type 0) → Outcome A → Type 0
Ends P (ok a s) = P s
Ends P (raised ex s) = P s
Ends P panicked = ⊥

module _ {A B : Type 0} (P : Machine → Type 0) where
  pub Ends-and_then :
      (r : Outcome A) (k : A → M B)
      → Ends P r
      → ((a : A) (t : Machine) → P t → Ends P (k a t))
      → Ends P (and_then r k)
  Ends-and_then (ok a s) k h next = next a s h
  Ends-and_then (raised ex s) k h next = h
  Ends-and_then panicked k h next = h

pub Ends-when :
    (P : Machine → Type 0) (b : Bool) (m : M (Unit {0})) (s : Machine)
    → P s
    → Ends P (m s)
    → Ends P (when b m s)
Ends-when P true m s h e = e
Ends-when P false m s h e = h

pub Ends-mono :
    {A : Type 0} {P Q : Machine → Type 0} (r : Outcome A)
    → ((t : Machine) → P t → Q t)
    → Ends P r
    → Ends Q r
Ends-mono (ok a s) f h = f s h
Ends-mono (raised ex s) f h = f s h
Ends-mono panicked f h = h

-- A computation that keeps an invariant, and never stops the emulator, from a state that has it.
pub record Keeps {A : Type 0} (P : Machine → Type 0) (m : M A) : Type 0 where
  pub run : (s : Machine) → P s → Ends P (m s)

module _ {P : Machine → Type 0} where
  pub seq : {A : Type 0} {m : M (Unit {0})} {n : M A} → Keeps P m → Keeps P n → Keeps P (m >> n)
  seq {m} {n} h k = record {
    run = λ s p. Ends-and_then P (m s) (λ _. n) (h.run s p) (λ _ t q. k.run t q);
  }

  pub bind :
      {A B : Type 0} {m : M A} {n : A → M B}
      → Keeps P m
      → ((a : A) → Keeps P (n a))
      → Keeps P (m >>= n)
  bind {m} {n} h k = record {
    run = λ s p. Ends-and_then P (m s) n (h.run s p) (λ a t q. (k a).run t q);
  }

  pub when-Keeps : (b : Bool) {m : M (Unit {0})} → Keeps P m → Keeps P (when b m)
  when-Keeps b {m} h = record { run = λ s p. Ends-when P b m s p (h.run s p) }

  pub pure-Keeps : {A : Type 0} (a : A) → Keeps P (pure a)
  pure-Keeps a = record { run = λ s p. p }

  pub csr-Keeps : (a : ℕ) → Keeps P (csr a)
  csr-Keeps a = record { run = λ s p. p }

-- What a call returns, if it returns.
abbrev pub OkOnly : {A : Type 0} → (A → Type 0) → Outcome A → Type 0
OkOnly P (ok a s) = P a
OkOnly P (raised ex s) = Unit {0}
OkOnly P panicked = Unit {0}

module _ {A B : Type 0} where
  pub OkOnly-and_then :
      (P : A → Type 0) (Q : B → Type 0) (r : Outcome A) (k : A → M B)
      → OkOnly P r
      → ((a : A) (t : Machine) → P a → OkOnly Q (k a t))
      → OkOnly Q (and_then r k)
  OkOnly-and_then P Q (ok a s) k h next = next a s h
  OkOnly-and_then P Q (raised ex s) k h next = tt
  OkOnly-and_then P Q panicked k h next = tt

module _ {A B : Type 0} where
  pub and_then_congr :
      (P : A → Type 0) (r : Outcome A) (k l : A → M B)
      → OkOnly P r
      → ((a : A) (t : Machine) → P a → k a t ≡ l a t)
      → and_then r k ≡ and_then r l
  and_then_congr P (ok a s) k l h e = e a s h
  and_then_congr P (raised ex s) k l h e = refl
  and_then_congr P panicked k l h e = refl

-- A computation that returns only values with a property, whatever the state.
pub record Yields {A : Type 0} (P : A → Type 0) (m : M A) : Type 0 where
  pub run : (s : Machine) → OkOnly P (m s)

module _ {A : Type 0} where
  OkOnly-any : (r : Outcome A) → OkOnly (λ a. Unit {0}) r
  OkOnly-any (ok a s) = tt
  OkOnly-any (raised ex s) = tt
  OkOnly-any panicked = tt

  pub any-Yields : (m : M A) → Yields (λ a. Unit {0}) m
  any-Yields m = record { run = λ s. OkOnly-any (m s) }

  pub pure-Yields : {P : A → Type 0} (a : A) → P a → Yields P (pure a)
  pure-Yields a h = record { run = λ s. h }

  pub if-Yields :
      {P : A → Type 0} (b : Bool) {m n : M A}
      → Yields P m
      → Yields P n
      → Yields P (if b then m else n)
  if-Yields true h k = h
  if-Yields false h k = k

module _ {A B : Type 0} where
  pub bind-Yields :
      {P : A → Type 0} {Q : B → Type 0} {m : M A} {k : A → M B}
      → Yields P m
      → ((a : A) → P a → Yields Q (k a))
      → Yields Q (m >>= k)
  bind-Yields {P} {Q} {m} {k} h next = record {
    run = λ s. OkOnly-and_then P Q (m s) k (h.run s) (λ a t p. (next a p).run t);
  }

  pub then-Yields :
      {Q : B → Type 0} (m : M A) {k : A → M B} → ((a : A) → Yields Q (k a)) → Yields Q (m >>= k)
  then-Yields m next = bind-Yields (any-Yields m) (λ a p. next a)
