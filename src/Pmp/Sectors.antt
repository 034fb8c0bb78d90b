-- ===== src/Pmp/Sectors.antt =====
-- The loop over the 4-byte sectors of an access.
use nemu.Base.{ℕ, zero, suc, ◌+◌, ◌*◌, ◌<◌, ◌≡◌, refl, inl, inr, ◌⊎◌, arith, Bool, true}
use nemu.Base.{false, ◌&&◌, ◌||◌, ◌∙◌, ap, u64, ◌↔◌}
use nemu.Pmp.{Entry, sector_loop, sector_match}

module _ (e : Entry) where
  -- Sector `k` of an access at `cur` lies in the entry.
  unfoldable pub HitAt : ℕ → ℕ → Type 0
  HitAt cur k = sector_match e (u64 (cur + k * 4)) ≡ true

  shift : (cur k : ℕ) → HitAt (cur + 4) k → HitAt cur (suc k)
  unfolding HitAt
  shift cur k h = ap (λ (a : ℕ). sector_match e (u64 a)) (omega arith) ∙ h

  unshift : (cur k : ℕ) → HitAt cur (suc k) → HitAt (cur + 4) k
  unfolding HitAt
  unshift cur k h = ap (λ (a : ℕ). sector_match e (u64 a)) (omega arith) ∙ h

  at_zero : (cur : ℕ) → sector_match e (u64 cur) ≡ true → HitAt cur 0
  unfolding HitAt
  at_zero cur h = ap (λ (a : ℕ). sector_match e (u64 a)) (omega arith) ∙ h

  of_zero : (cur : ℕ) → HitAt cur 0 → sector_match e (u64 cur) ≡ true
  unfolding HitAt
  of_zero cur h = ap (λ (a : ℕ). sector_match e (u64 a)) (omega arith) ∙ h

  any_sound :
      (n cur : ℕ) (any all : Bool)
      → (sector_loop n cur e (any, all)).0 ≡ true
      → (any ≡ true) ⊎ ((k : ℕ) × (k < n) × HitAt cur k)
  unfolding sector_loop
  any_sound zero cur any all h = inl h
  any_sound (suc n) cur any all h =
      elim (any_sound n (cur + 4) (any || sector_match e (u64 cur))
        (all && sector_match e (u64 cur)) h) [
          | inl now ↦ first any now
          | inr (k, lt, hit) ↦ inr (suc k, omega arith, shift cur k hit)
        ]
    where
      first :
          (any : Bool)
          → (any || sector_match e (u64 cur)) ≡ true
          → (any ≡ true) ⊎ ((k : ℕ) × (k < suc n) × HitAt cur k)
      first true now = inl refl
      first false now = inr (0, omega arith, at_zero cur now)

  any_complete :
      (n cur : ℕ) (any all : Bool)
      → (any ≡ true) ⊎ ((k : ℕ) × (k < n) × HitAt cur k)
      → (sector_loop n cur e (any, all)).0 ≡ true
  unfolding sector_loop
  any_complete zero cur any all (inl h) = h
  any_complete zero cur any all (inr (k, lt, hit)) = absurd (omega arith)
  any_complete (suc n) cur any all (inl h) = any_complete n (cur + 4) _ _ (inl (ground arith))
  any_complete (suc n) cur any all (inr (zero, lt, hit)) =
      let now = of_zero cur hit in any_complete n (cur + 4) _ _ (inl (ground arith))
  any_complete (suc n) cur any all (inr (suc k, lt, hit)) =
      any_complete n (cur + 4) _ _ (inr (k, omega arith, unshift cur k hit))

  all_sound :
      (n cur : ℕ) (any all : Bool)
      → (sector_loop n cur e (any, all)).1 ≡ true
      → (all ≡ true) × ((k : ℕ) → k < n → HitAt cur k)
  unfolding sector_loop
  all_sound zero cur any all h = (h, λ k lt. absurd (omega arith))
  all_sound (suc n) cur any all h =
      let rest =
        all_sound n (cur + 4) (any || sector_match e (u64 cur)) (all && sector_match e (u64 cur))
          h in
      (left all rest.0, every all rest.0 rest.1)
    where
      left : (all : Bool) → (all && sector_match e (u64 cur)) ≡ true → all ≡ true
      left true now = refl
      left false now = ground arith

      every :
          (all : Bool)
          → (all && sector_match e (u64 cur)) ≡ true
          → ((k : ℕ) → k < n → HitAt (cur + 4) k)
          → (k : ℕ) → k < suc n
          → HitAt cur k
      every true now rest zero lt = at_zero cur now
      every false now rest zero lt = ground arith
      every all now rest (suc k) lt = shift cur k (rest k (omega arith))

  all_complete :
      (n cur : ℕ) (any all : Bool)
      → all ≡ true
      → ((k : ℕ) → k < n → HitAt cur k)
      → (sector_loop n cur e (any, all)).1 ≡ true
  unfolding sector_loop
  all_complete zero cur any all h every = h
  all_complete (suc n) cur any all h every =
      let now = of_zero cur (every 0 (omega arith)) in
      all_complete n (cur + 4) _ _ (ground arith)
        (λ k lt. unshift cur k (every (suc k) (omega arith)))

  -- What the two flags of the loop say of an access of `n` sectors at `cur`: some sector lies in
  -- the entry, and every sector does.
  pub record Flags (n cur : ℕ) (flags : Bool × Bool) : Type 0 where
    pub any_match : (flags.0 ≡ true) ↔ ((k : ℕ) × (k < n) × HitAt cur k)
    pub all_match : (flags.1 ≡ true) ↔ ((k : ℕ) → k < n → HitAt cur k)

  -- After the loop over the 4-byte sectors of an access, the first flag says that some sector lies
  -- in the entry, and the second that every sector does.
  pub sector_loop-Flags : (n cur : ℕ) → Flags n cur (sector_loop n cur e (false, true))
  sector_loop-Flags n cur = record {
    any_match =
        (λ h. from_inr (any_sound n cur false true h), λ h. any_complete n cur false true (inr h));
    all_match = (λ h. (all_sound n cur false true h).1, λ h. all_complete n cur false true refl h);
  }
    where
      from_inr : {A : Type 0} → (false ≡ true) ⊎ A → A
      from_inr (inl h) = absurd (ground arith)
      from_inr (inr a) = a
