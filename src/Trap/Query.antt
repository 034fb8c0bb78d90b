-- ===== src/Trap/Query.antt =====
-- isa_query_intr picks the first interrupt, in order of priority, that is pending, enabled and
-- allowed by the delegations.
use Prim.Native.Nat.{bit_and-bitwise}
use nemu.Base.{
  ==_iff, ◌/◌, ◌%◌, min, sym, ap, ◌∙◌, ℕ, ◌+◌, ◌<◌, ◌^◌, ◌≡◌, refl, inl, inr, ◌⊎◌, arith, Bool, ◌↔◌,
}
use nemu.Base.{true, false, ◌&&◌, Bool-cases, ◌==◌, ◌!=◌, bit_and, bit_or, List, [], ◌∷◌}
use nemu.Bits.Pack.{has_bit}
use nemu.Bits.{test_bit, test_bit-bit_and, test_bit-eq-field}
use nemu.Machine.{Machine, mode_m}
use nemu.Machine.Csr
use nemu.Trap.{intr_empty, intr_bit, priority, global_enable, query_loop, isa_query_intr}

abbrev bit_of : ℕ → ℕ → ℕ
bit_of irq w = w / 2 ^ irq % 2

-- Where an interrupt is taken, as the delegations say, and when that level takes one: always from a lower
-- mode, and in its own if the interrupts of the level are on; user mode has none below it.
pub data Allowed (irq : ℕ) (s : Machine) : Type 0 where
  by_machine :
      bit_of irq (s.csr_array Csr.mideleg) ≡ 0
      → bit_of irq (s.csr_array Csr.sideleg) ≡ 0
      → (s.mode < 3) ⊎ ((s.mode ≡ 3) × (bit_of 3 (s.csr_array Csr.mstatus) ≡ 1))
      → Allowed irq s
  by_supervisor :
      bit_of irq (s.csr_array Csr.mideleg) ≡ 1
      → bit_of irq (s.csr_array Csr.sideleg) ≡ 0
      → (s.mode < 1) ⊎ ((s.mode ≡ 1) × (bit_of 1 (s.csr_array Csr.mstatus) ≡ 1))
      → Allowed irq s
  by_user :
      bit_of irq (s.csr_array Csr.sideleg) ≡ 1
      → s.mode ≡ 0
      → bit_of 0 (s.csr_array Csr.mstatus) ≡ 1
      → Allowed irq s

-- An interrupt that may be taken now.
pub record Takable (irq : ℕ) (s : Machine) : Type 0 where
  pub pending : bit_of irq (s.csr_array Csr.mip) ≡ 1
  pub enabled : bit_of irq (s.csr_array Csr.mie) ≡ 1
  pub allowed : Allowed irq s

-- The interrupts of a level: external before software before timer; the machine's come first.
abbrev of_level : ℕ → List ℕ → List ℕ
of_level level rest = (8 + level) ∷ level ∷ (4 + level) ∷ rest

abbrev pub by_level : List ℕ
by_level = of_level 3 (of_level 1 (of_level 0 []))

abbrev NoneTakable : List ℕ → Machine → Type 0
NoneTakable [] s = Unit
NoneTakable (irq ∷ rest) s = ¬ (Takable irq s) × NoneTakable rest s

-- `irq` is the first of the list that may be taken.
pub data FirstTakable (s : Machine) : ℕ → List ℕ → Type 0 where
  here : {irq : ℕ} {rest : List ℕ} → Takable irq s → FirstTakable s irq (irq ∷ rest)
  later :
      {irq other : ℕ} {rest : List ℕ}
      → ¬ (Takable other s)
      → FirstTakable s irq rest
      → FirstTakable s irq (other ∷ rest)

-- The answer of a query over a list of interrupts.
pub data Answer (s : Machine) (l : List ℕ) (r : ℕ) : Type 0 where
  empty : r ≡ intr_empty → NoneTakable l s → Answer s l r
  takes : (irq : ℕ) → r ≡ bit_or irq intr_bit → FirstTakable s irq l → Answer s l r

-- The test of the loop.
abbrev is_takable : ℕ → Machine → Bool
is_takable irq s =
    (bit_and (bit_and (s.csr_array Csr.mie) (s.csr_array Csr.mip)) (2 ^ irq) != 0)
    && global_enable irq s

bit_cases : (irq w : ℕ) → (bit_of irq w ≡ 0) ⊎ (bit_of irq w ≡ 1)
bit_cases irq w = omega arith

module _ (irq : ℕ) (s : Machine) where
  user_bit :
      (bit_and (s.csr_array Csr.sideleg) (2 ^ irq) != 0)
      ≡ (bit_of irq (s.csr_array Csr.sideleg) == 1)
  user_bit = has_bit (s.csr_array Csr.sideleg) irq

  supervisor_bit :
      (bit_and (s.csr_array Csr.mideleg) (2 ^ irq) != 0)
      ≡ (bit_of irq (s.csr_array Csr.mideleg) == 1)
  supervisor_bit = has_bit (s.csr_array Csr.mideleg) irq

  enable_sound : global_enable irq s ≡ true → Allowed irq s
  unfolding global_enable
  enable_sound h = elim (bit_cases irq (s.csr_array Csr.sideleg)) [
    | inr u ↦ by_user u (ground (arith, user_bit)) (ground (arith, user_bit))
    | inl nu ↦ elim (bit_cases irq (s.csr_array Csr.mideleg)) [
      | inr m ↦ by_supervisor m nu (ground (arith, user_bit, supervisor_bit))
      | inl nm ↦ by_machine nm nu (ground (arith, user_bit, supervisor_bit))
    ]
  ]

  enable_complete : Allowed irq s → global_enable irq s ≡ true
  unfolding global_enable
  enable_complete (by_machine nm nu on) = ground (arith, user_bit, supervisor_bit)
  enable_complete (by_supervisor m nu on) = ground (arith, user_bit, supervisor_bit)
  enable_complete (by_user u mode on) = ground (arith, user_bit)

both : (irq a b : ℕ) → bit_of irq (bit_and a b) ≡ min (bit_of irq a) (bit_of irq b)
both irq a b =
    sym (test_bit-eq-field (bit_and a b) irq)
    ∙ test_bit-bit_and a b irq
    ∙ ap (λ (t : ℕ). min t (test_bit b irq)) (test_bit-eq-field a irq)
    ∙ ap (λ (t : ℕ). min (bit_of irq a) t) (test_bit-eq-field b irq)

Takable-iff : (irq : ℕ) (s : Machine) → (is_takable irq s ≡ true) ↔ Takable irq s
Takable-iff irq s = (
  λ h. record {
    pending = ground (arith, both irq (s.csr_array Csr.mie) (s.csr_array Csr.mip), tested);
    enabled = ground (arith, both irq (s.csr_array Csr.mie) (s.csr_array Csr.mip), tested);
    allowed = enable_sound irq s (ground arith);
  },
  λ t.
      let on = enable_complete irq s t.allowed in
      ground (arith, both irq (s.csr_array Csr.mie) (s.csr_array Csr.mip), tested),
)
  where
    tested :
        (bit_and (bit_and (s.csr_array Csr.mie) (s.csr_array Csr.mip)) (2 ^ irq) != 0)
        ≡ (bit_of irq (bit_and (s.csr_array Csr.mie) (s.csr_array Csr.mip)) == 1)
    tested = has_bit (bit_and (s.csr_array Csr.mie) (s.csr_array Csr.mip)) irq

refused : (irq : ℕ) (s : Machine) → is_takable irq s ≡ false → ¬ (Takable irq s)
refused irq s n t = let y = (Takable-iff irq s).1 t in cc

query_loop-Answer :
    (l : List ℕ) (s : Machine)
    → Answer s l (query_loop (bit_and (s.csr_array Csr.mie) (s.csr_array Csr.mip)) l s)
unfolding query_loop
query_loop-Answer [] s = empty refl tt
query_loop-Answer (irq ∷ rest) s = elim (Bool-cases (is_takable irq s)) [
  | inl y ↦ rw y (takes irq refl (here ((Takable-iff irq s).0 y)))
  | inr n ↦ rw n (skip (refused irq s n) (query_loop-Answer rest s))
]
  where
    skip : {r : ℕ} → ¬ (Takable irq s) → Answer s rest r → Answer s (irq ∷ rest) r
    skip n (empty e none) = empty e (n, none)
    skip n (takes i e first) = takes i e (later n first)

zero-bit_and : (b : ℕ) → bit_and 0 b ≡ 0
zero-bit_and b = bit_and-bitwise 0 b

NoneTakable-of_empty :
    (l : List ℕ) (s : Machine)
    → bit_and (s.csr_array Csr.mie) (s.csr_array Csr.mip) ≡ 0
    → NoneTakable l s
NoneTakable-of_empty [] s e = tt
NoneTakable-of_empty (irq ∷ rest) s e =
    (refused irq s (rw (e, zero-bit_and (2 ^ irq)) refl), NoneTakable-of_empty rest s e)

-- The answer is the first interrupt that is pending, enabled, and allowed at the level that the delegations
-- give it: from a lower mode always, in its own mode if the enable bit of the level is on. External comes
-- before software and software before timer in a level, and the levels from the machine's down. The interrupt
-- bit is set, and the answer is INTR_EMPTY where there is none.
pub isa_query_intr-Answer : (s : Machine) → Answer s by_level (isa_query_intr s)
unfolding isa_query_intr
isa_query_intr-Answer s =
    elim (Bool-cases (bit_and (s.csr_array Csr.mie) (s.csr_array Csr.mip) == 0)) [
      | inl y ↦ rw y (empty refl (NoneTakable-of_empty by_level s ((==_iff _ 0).0 y)))
      | inr n ↦ rw n (query_loop-Answer priority s)
    ]

-- An interrupt that is let through in machine mode is named by neither delegation register.
pub global_enable-mode_m :
    (irq : ℕ) (s : Machine)
    → s.mode ≡ mode_m
    → global_enable irq s ≡ true
    → (bit_and (s.csr_array Csr.mideleg) (2 ^ irq) ≡ 0)
      × (bit_and (s.csr_array Csr.sideleg) (2 ^ irq) ≡ 0)
unfolding global_enable
global_enable-mode_m irq s m h = ground arith
