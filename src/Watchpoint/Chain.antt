-- ===== src/Watchpoint/Chain.antt =====
-- Linked lists in the array of watchpoints.
use nemu.Base.{ℕ, zero, suc, ◌≤◌, ◌≡◌, refl, ap, ◌∙◌, arith, Bool, true, false, inl, inr}
use nemu.Base.{
  ◌==◌, ◌||◌, ==_iff, Bool-cases, if◌then◌else◌, Option, none, some, List, [], ◌∷◌, length,
}
use nemu.Machine.{update}
use nemu.Watchpoint.{Wp, Search, found, absent, search_loop}

abbrev pub has : ℕ → List ℕ → Bool
has a [] = false
has a (x ∷ xs) = (a == x) || has a xs

abbrev pub Distinct : List ℕ → Type 0
Distinct [] = Unit {0}
Distinct (x ∷ xs) = (has x xs ≡ false) × Distinct xs

-- From `cur` the pointers lead through the watchpoints of the list to NULL.
abbrev pub Chain : (ℕ → Wp) → Option ℕ → List ℕ → Type 0
Chain wp cur [] = cur ≡ none
Chain wp cur (i ∷ is) = (cur ≡ some i) × Chain wp (wp i).next is

abbrev pub remove : ℕ → List ℕ → List ℕ
remove a [] = []
remove a (x ∷ xs) = if a == x then xs else x ∷ remove a xs

pub Chain-update :
    (wp : ℕ → Wp) (k : ℕ) (w : Wp) (cur : Option ℕ) (is : List ℕ)
    → has k is ≡ false
    → Chain wp cur is
    → Chain (update wp k w) cur is
Chain-update wp k w cur [] h c = c
Chain-update wp k w cur (i ∷ is) h c =
    (c.0, rw (apart i k is h) (Chain-update wp k w (wp i).next is (ground arith) c.1))
  where
    apart : (i k : ℕ) (is : List ℕ) → has k (i ∷ is) ≡ false → (i == k) ≡ false
    apart i k is h = ground arith

pub has-remove_self : (a : ℕ) (is : List ℕ) → Distinct is → has a (remove a is) ≡ false
has-remove_self a [] d = refl
has-remove_self a (x ∷ xs) d = ground (arith, has-remove_self a xs d.1)

pub has-remove : (a b : ℕ) (is : List ℕ) → has b (remove a is) ≡ true → has b is ≡ true
has-remove a b [] h = h
has-remove a b (x ∷ xs) h = ground (arith, has-remove a b xs)

pub Distinct-remove : (a : ℕ) (is : List ℕ) → Distinct is → Distinct (remove a is)
Distinct-remove a [] d = tt
Distinct-remove a (x ∷ xs) d = elim (Bool-cases (a == x)) [
  | inl e ↦ rw e d.1
  | inr ne ↦ rw ne (not_again, Distinct-remove a xs d.1)
]
  where
    not_again : has x (remove a xs) ≡ false
    not_again = ground (arith, has-remove a x xs)

-- Every watchpoint of a list has its index as its number.
abbrev pub Numbered : (ℕ → Wp) → List ℕ → Type 0
Numbered wp [] = Unit {0}
Numbered wp (i ∷ is) = ((wp i).no ≡ i) × Numbered wp is

pub search_loop-absent :
    (fuel : ℕ) (wp : ℕ → Wp) (i : ℕ) (prev cur : Option ℕ) (is : List ℕ)
    → Chain wp cur is
    → Numbered wp is
    → has i is ≡ false
    → length is ≤ fuel
    → search_loop fuel wp i prev cur ≡ absent
unfolding search_loop
search_loop-absent zero wp i prev cur [] c n h le = rw c refl
search_loop-absent (suc fuel) wp i prev cur [] c n h le = rw c refl
search_loop-absent zero wp i prev cur (x ∷ xs) c n h le = absurd (omega arith)
search_loop-absent (suc fuel) wp i prev cur (x ∷ xs) c n h le =
    let ne : ((wp x).no == i) ≡ false = ground (arith, n.0) in
    rw (c.0, ne)
      (search_loop-absent fuel wp i (some x) (wp x).next xs c.1 n.1 (ground arith) (omega arith))

-- What a search finds behind the watchpoint `x`: `i`, with one before it whose pointer, once it is
-- moved past `i`, leaves the list without `i`.
pub record Unlinks (wp : ℕ → Wp) (x : ℕ) (xs : List ℕ) (i : ℕ) (r : Search) : Type 0 where
  pub before : ℕ
  pub result : r ≡ found (some before) i
  pub member : has before (x ∷ xs) ≡ true
  pub apart : (i == before) ≡ false
  pub chain :
      Chain
        (update wp before (record (wp before) { next = (wp i).next }))
        (some x)
        (x ∷ remove i xs)

pub eq_self : (a : ℕ) → (a == a) ≡ true
eq_self a = ground arith

Distinct-ne : (x y : ℕ) (ys : List ℕ) → Distinct (x ∷ y ∷ ys) → (y == x) ≡ false
Distinct-ne x y ys d = ground (arith, d.0)

has_later : (x y : ℕ) (ys : List ℕ) → has x (y ∷ ys) ≡ false → has x ys ≡ false
has_later x y ys h = ground arith

link_here :
    (wp : ℕ → Wp) (x y : ℕ) (ys : List ℕ)
    → Chain wp (wp y).next ys
    → Distinct (x ∷ y ∷ ys)
    → Unlinks wp x (y ∷ ys) y (found (some x) y)
link_here wp x y ys c d = record {
  before = x;
  result = refl;
  member = rw (eq_self x) refl;
  apart = Distinct-ne x y ys d;
  chain = (
    refl,
    rw (eq_self x, eq_self y) (Chain-update wp x _ (wp y).next ys (has_later x y ys d.0) c),
  );
}

not_member : (x b : ℕ) (ys : List ℕ) → has x ys ≡ false → has b ys ≡ true → (x == b) ≡ false
not_member x b [] h k = cc
not_member x b (y ∷ ys) h k = ground (arith, not_member x b ys)

link_later :
    (wp : ℕ → Wp) (i x y : ℕ) (ys : List ℕ) (r : Search)
    → (wp x).next ≡ some y
    → has x (y ∷ ys) ≡ false
    → (i == y) ≡ false
    → Unlinks wp y ys i r
    → Unlinks wp x (y ∷ ys) i r
link_later wp i x y ys r e h ne u = record {
  before = u.before;
  result = u.result;
  member = ground (arith, u.member);
  apart = u.apart;
  chain = (refl, rw (not_member x u.before (y ∷ ys) h u.member, ne, e) u.chain);
}

pub search_loop-found :
    (fuel : ℕ) (wp : ℕ → Wp) (i x : ℕ) (cur : Option ℕ) (xs : List ℕ)
    → (wp x).next ≡ cur
    → Chain wp cur xs
    → Distinct (x ∷ xs)
    → Numbered wp xs
    → has i xs ≡ true
    → length xs ≤ fuel
    → Unlinks wp x xs i (search_loop fuel wp i (some x) cur)
unfolding search_loop
search_loop-found fuel wp i x cur [] e c d n h le = absurd_mem h
  where
    absurd_mem : {A : Type 0} → has i [] ≡ true → A
    absurd_mem h = cc
search_loop-found zero wp i x cur (y ∷ ys) e c d n h le = absurd (omega arith)
search_loop-found (suc fuel) wp i x cur (y ∷ ys) e c d n h le = elim (Bool-cases (i == y)) [
  | inl same ↦
      let at : i ≡ y = (==_iff i y).0 same in
      let here : ((wp y).no == y) ≡ true = ground (arith, n.0) in
      rw (c.0, at, here) (link_here wp x y ys c.1 d)
  | inr other ↦
      let ne : ((wp y).no == i) ≡ false = ground (arith, n.0) in
      rw (c.0, ne)
        (link_later wp i x y ys _ (e ∙ c.0) d.0 other (
          search_loop-found fuel wp i y (wp y).next ys refl c.1 d.1 n.1 (ground arith)
            (omega arith)))
]

pub length-remove : (a : ℕ) (is : List ℕ) → has a is ≡ true → length is ≡ suc (length (remove a is))
length-remove a [] h = absurd_mem h
  where
    absurd_mem : {A : Type 0} → has a [] ≡ true → A
    absurd_mem h = cc
length-remove a (x ∷ xs) h = elim (Bool-cases (a == x)) [
  | inl e ↦ rw e refl
  | inr ne ↦ rw ne (ap suc (length-remove a xs (ground arith)))
]

pub Numbered-update :
    (wp : ℕ → Wp) (k : ℕ) (w : Wp) (is : List ℕ)
    → w.no ≡ (wp k).no
    → Numbered wp is
    → Numbered (update wp k w) is
Numbered-update wp k w [] e n = tt
Numbered-update wp k w (x ∷ xs) e n = (ground (arith, n.0), Numbered-update wp k w xs e n.1)

pub Numbered-remove :
    (wp : ℕ → Wp) (a : ℕ) (is : List ℕ) → Numbered wp is → Numbered wp (remove a is)
Numbered-remove wp a [] n = tt
Numbered-remove wp a (x ∷ xs) n = elim (Bool-cases (a == x)) [
  | inl e ↦ rw e n.1
  | inr ne ↦ rw ne (n.0, Numbered-remove wp a xs n.1)
]

pub Numbered-at :
    (wp : ℕ → Wp) (a : ℕ) (is : List ℕ) → Numbered wp is → has a is ≡ true → (wp a).no ≡ a
Numbered-at wp a [] n h = absurd_mem h
  where
    absurd_mem : {A : Type 0} → has a [] ≡ true → A
    absurd_mem h = cc
Numbered-at wp a (x ∷ xs) n h = elim (Bool-cases (a == x)) [
  | inl e ↦ rw ((==_iff a x).0 e) n.0
  | inr ne ↦ Numbered-at wp a xs n.1 (ground arith)
]
