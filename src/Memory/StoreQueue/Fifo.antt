-- ===== src/Memory/StoreQueue/Fifo.antt =====
-- The ring is a first-in first-out queue of at most 64 stores.
use nemu.Base.{
  ℕ, zero, suc, ◌+◌, ◌-◌, ◌%◌, ◌≤◌, ◌<◌, ◌≡◌, ◌≢◌, refl, inl, inr, ◌⊎◌, arith, Bool, true,
}
use nemu.Base.{false, sym, ◌∙◌, ap, Option, none, some, List, [], ◌∷◌, ◌++◌, length, get_elem?}
use nemu.Base.{length-append}
use nemu.Machine.{update}
use nemu.Machine.Laws.{update-other, update-same}
use nemu.Memory.StoreQueue.{
  StoreCommit, Ring, store_commit_queue_push, store_commit_queue_pop, commit_lanes,
}

-- The ring holds `xs`, the oldest store first: they lie from head on, and the other slots are free.
pub record Represents (xs : List StoreCommit) (q : Ring) : Type 0 where
  pub bounded : length xs ≤ 64
  pub in_range : q.head < 64
  pub ends : q.tail ≡ (q.head + length xs) % 64
  pub held : (i : ℕ) → i < length xs → some (q.queue ((q.head + i) % 64)) ≡ get_elem? xs i
  pub valid : (i : ℕ) → i < length xs → (q.queue ((q.head + i) % 64)).valid ≡ true
  pub free : (i : ℕ) → length xs ≤ i → i < 64 → (q.queue ((q.head + i) % 64)).valid ≡ false

-- The entry of a store.
abbrev pub commit_of : ℕ → ℕ × ℕ → StoreCommit
commit_of addr (lanes, mask) = record {
  addr = addr - addr % 8;
  bytes = lanes;
  mask = mask;
  valid = true;
}

module _ {ℓ} {A : Type ℓ} where
  get_elem?-snoc_last : (xs : List A) (x : A) → get_elem? (xs ++ (x ∷ [])) (length xs) ≡ some x
  get_elem?-snoc_last [] x = refl
  get_elem?-snoc_last (y ∷ xs) x = get_elem?-snoc_last xs x

  get_elem?-snoc_before :
      (xs : List A) (x : A) (i : ℕ) → i < length xs → get_elem? (xs ++ (x ∷ [])) i ≡ get_elem? xs i
  get_elem?-snoc_before [] x i h = absurd (omega arith)
  get_elem?-snoc_before (y ∷ xs) x zero h = refl
  get_elem?-snoc_before (y ∷ xs) x (suc i) h = get_elem?-snoc_before xs x i (omega arith)

some_inj : (c d : StoreCommit) → some c ≡ some d → c ≡ d
some_inj c d h = ap (λ (o : Option StoreCommit). elim o [ none ↦ c | some x ↦ x ]) h

-- An empty ring says so, and stays as it is.
pop-empty : (q : Ring) → Represents [] q → store_commit_queue_pop q ≡ (none, q)
unfolding store_commit_queue_pop
pop-empty q r = rw (empty q r) refl
  where
    empty : (q : Ring) → Represents [] q → (q.queue q.head).valid ≡ false
    empty q r =
        ap (λ (i : ℕ). (q.queue i).valid) (omega (arith, r.in_range))
        ∙ r.free 0 (omega arith) (omega arith)

-- Popping gives the oldest store, marked invalid, and leaves the others.
pub record Pops (c : StoreCommit) (xs : List StoreCommit) (q : Ring) : Type 0 where
  pub after : Ring
  pub returns : store_commit_queue_pop q ≡ (some (record c { valid = false }), after)
  pub remaining : Represents xs after

abbrev popped : Ring → Ring
popped q = record q {
  queue = update q.queue q.head (record (q.queue q.head) { valid = false });
  head = (q.head + 1) % 64;
}

popped-slot :
    (q : Ring) (i : ℕ)
    → q.head < 64
    → i < 63
    → (popped q).queue (((q.head + 1) % 64 + i) % 64) ≡ q.queue ((q.head + suc i) % 64)
popped-slot q i h lt =
    update-other q.queue q.head _ _ (omega arith) ∙ ap (λ (k : ℕ). q.queue k) (omega arith)

popped-last :
    (q : Ring) → q.head < 64 → ((popped q).queue (((q.head + 1) % 64 + 63) % 64)).valid ≡ false
popped-last q h = ap (λ (c : StoreCommit). c.valid) (update-same q.queue q.head _ _ (omega arith))

module _ (c : StoreCommit) (xs : List StoreCommit) (q : Ring) (r : Represents (c ∷ xs) q) where
  at_head : (q.head + 0) % 64 ≡ q.head
  at_head = omega (arith, r.in_range)

  oldest : q.queue q.head ≡ c
  oldest = ap (λ (i : ℕ). q.queue i) (sym at_head) ∙ some_inj _ c (r.held 0 (omega arith))

  oldest_valid : (q.queue q.head).valid ≡ true
  oldest_valid = ap (λ (i : ℕ). (q.queue i).valid) (sym at_head) ∙ r.valid 0 (omega arith)

  popped-free :
      (i : ℕ)
      → length xs ≤ i
      → i < 64
      → ((popped q).queue (((q.head + 1) % 64 + i) % 64)).valid ≡ false
  popped-free i le lt = elim (last_or_before i lt) [
    | inl e ↦ rw e (popped-last q r.in_range)
    | inr below ↦
        ap (λ (d : StoreCommit). d.valid) (popped-slot q i r.in_range below)
        ∙ r.free (suc i) (omega arith) (omega arith)
  ]
    where
      last_or_before : (i : ℕ) → i < 64 → (i ≡ 63) ⊎ (i < 63)
      last_or_before i lt = omega arith

  remaining-Represents : Represents xs (popped q)
  remaining-Represents = record {
    bounded = omega (arith, r.bounded);
    in_range = omega arith;
    ends = omega (arith, r.ends, r.in_range);
    held = λ i lt.
        ap (λ (d : StoreCommit). some d) (popped-slot q i r.in_range (omega (arith, r.bounded)))
        ∙ r.held (suc i) (omega arith);
    valid = λ i lt.
        ap (λ (d : StoreCommit). d.valid) (popped-slot q i r.in_range (omega (arith, r.bounded)))
        ∙ r.valid (suc i) (omega arith);
    free = popped-free;
  }

  -- From a ring that represents a list of stores which is not empty, a pop gives the first, marked
  -- invalid, and the ring then represents the others.
  pub pop-Pops : Pops c xs q
  unfolding store_commit_queue_pop
  pop-Pops = record {
    after = popped q;
    returns =
        rw oldest_valid
          (ap (λ (d : StoreCommit). (some (record d { valid = false }), popped q)) oldest);
    remaining = remaining-Represents;
  }

-- A push onto a ring that is not full adds the store at the end.
pub record Pushes (amo : Bool) (addr value len : ℕ) (c : StoreCommit) (xs : List StoreCommit)
    (q : Ring) : Type 0 where
  pub after : Ring
  pub returns : store_commit_queue_push amo addr value len q ≡ some after
  pub queued : Represents (xs ++ (c ∷ [])) after

abbrev pushed : StoreCommit → Ring → Ring
pushed c q = record q { queue = update q.queue q.tail c; tail = (q.tail + 1) % 64 }

module _ (c : StoreCommit) (xs : List StoreCommit) (q : Ring) (r : Represents xs q)
    (room : length xs < 64) (v : c.valid ≡ true) where
  pushed-slot :
      (i : ℕ)
      → i < 64
      → i ≢ length xs
      → (pushed c q).queue ((q.head + i) % 64) ≡ q.queue ((q.head + i) % 64)
  pushed-slot i lt ne = update-other q.queue q.tail c _ (omega (arith, r.ends, r.in_range))

  pushed-last : (i : ℕ) → i ≡ length xs → (pushed c q).queue ((q.head + i) % 64) ≡ c
  pushed-last i e = update-same q.queue q.tail c _ (omega (arith, r.ends))

  last_or_before : (i : ℕ) → i < length xs + 1 → (i ≡ length xs) ⊎ (i < length xs)
  last_or_before i lt = omega arith

  pushed-held :
      (i : ℕ)
      → i < length xs + 1
      → some ((pushed c q).queue ((q.head + i) % 64)) ≡ get_elem? (xs ++ (c ∷ [])) i
  pushed-held i lt = elim (last_or_before i lt) [
    | inl e ↦
        ap (λ (d : StoreCommit). some d) (pushed-last i e)
        ∙ sym (get_elem?-snoc_last xs c)
        ∙ ap (λ (k : ℕ). get_elem? (xs ++ (c ∷ [])) k) (sym e)
    | inr below ↦
        ap (λ (d : StoreCommit). some d) (pushed-slot i (omega arith) (omega arith))
        ∙ r.held i below
        ∙ sym (get_elem?-snoc_before xs c i below)
  ]

  pushed-valid : (i : ℕ) → i < length xs + 1 → ((pushed c q).queue ((q.head + i) % 64)).valid ≡ true
  pushed-valid i lt = elim (last_or_before i lt) [
    | inl e ↦ ap (λ (d : StoreCommit). d.valid) (pushed-last i e) ∙ v
    | inr below ↦
        ap (λ (d : StoreCommit). d.valid) (pushed-slot i (omega arith) (omega arith))
        ∙ r.valid i below
  ]

  pushed-Represents : Represents (xs ++ (c ∷ [])) (pushed c q)
  pushed-Represents = record {
    bounded = omega (arith, length-append xs (c ∷ []));
    in_range = r.in_range;
    ends = omega (arith, r.ends, r.in_range, length-append xs (c ∷ []));
    held = λ i lt. pushed-held i (omega (arith, length-append xs (c ∷ [])));
    valid = λ i lt. pushed-valid i (omega (arith, length-append xs (c ∷ [])));
    free = λ i le lt.
        ap (λ (d : StoreCommit). d.valid)
          (pushed-slot i lt (omega (arith, length-append xs (c ∷ []))))
        ∙ r.free i (omega (arith, length-append xs (c ∷ []))) lt;
  }

-- Onto a ring that represents fewer than 64 stores, a push of a store that is no AMO and of a
-- width of 1, 2, 4 or 8 bytes succeeds, and the ring then represents the same stores with the new
-- one at the end.
pub push-Pushes :
    (addr value len : ℕ) (lanes : ℕ × ℕ) (xs : List StoreCommit) (q : Ring)
    → Represents xs q
    → length xs < 64
    → commit_lanes len (addr % 8) value ≡ some lanes
    → Pushes false addr value len (commit_of addr lanes) xs q
unfolding store_commit_queue_push
push-Pushes addr value len (bytes, mask) xs q r room e = record {
  after = pushed (commit_of addr (bytes, mask)) q;
  returns = rw e refl;
  queued = pushed-Represents (commit_of addr (bytes, mask)) xs q r room refl;
}
