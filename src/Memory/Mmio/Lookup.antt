-- ===== src/Memory/Mmio/Lookup.antt =====
-- Which device an address belongs to.
use nemu.Base.{ℕ, zero, suc, ◌<◌, ◌≡◌, refl, inl, inr, arith, true}
use nemu.Base.{false, sym, ◌∙◌, ap, Option, none, some, List, [], ◌∷◌, get_elem?, Bool-cases}
use nemu.Machine.{IoMap}
use nemu.Memory.Mmio.{map_inside, find_mapid_by_addr}

-- The search is right: the index found is that of a map with the address, and no earlier map has
-- it; where none is found, no map has the address.
pub data Finds (maps : List IoMap) (addr : ℕ) : Option ℕ → Type 0 where
  found :
      (i : ℕ) (map : IoMap)
      → get_elem? maps i ≡ some map
      → map_inside map addr ≡ true
      → ((j : ℕ) (other : IoMap)
          → j < i
          → get_elem? maps j ≡ some other
          → map_inside other addr ≡ false)
      → Finds maps addr (some i)
  absent :
      ((j : ℕ) (other : IoMap) → get_elem? maps j ≡ some other → map_inside other addr ≡ false)
      → Finds maps addr none

some_inj : (c d : IoMap) → some c ≡ some d → c ≡ d
some_inj c d h = ap (λ (o : Option IoMap). elim o [ none ↦ c | some x ↦ x ]) h

none_ne : {A : Type 0} → (c : IoMap) → none ≡ some c → A
none_ne c h = absurd (ground arith)

module _ (addr : ℕ) (map : IoMap) (maps : List IoMap) where
  here : map_inside map addr ≡ true → Finds (map ∷ maps) addr (some 0)
  here h = found 0 map refl h (λ j other lt. absurd (omega arith))

  there :
      (r : Option ℕ)
      → map_inside map addr ≡ false
      → Finds maps addr r
      → Finds (map ∷ maps) addr (elim r [ none ↦ none | some i ↦ some (suc i) ])
  there r miss (found i m e inside before) = found (suc i) m e inside (earlier i before)
    where
      earlier :
          (i : ℕ)
          → ((j : ℕ) (other : IoMap)
              → j < i
              → get_elem? maps j ≡ some other
              → map_inside other addr ≡ false)
          → (j : ℕ) (other : IoMap) → j < suc i
          → get_elem? (map ∷ maps) j ≡ some other
          → map_inside other addr ≡ false
      earlier i before zero other lt e =
          ap (λ (m : IoMap). map_inside m addr) (sym (some_inj map other e)) ∙ miss
      earlier i before (suc j) other lt e = before j other (omega arith) e
  there r miss (absent all) = absent (rest all)
    where
      rest :
          ((j : ℕ) (other : IoMap) → get_elem? maps j ≡ some other → map_inside other addr ≡ false)
          → (j : ℕ) (other : IoMap) → get_elem? (map ∷ maps) j ≡ some other
          → map_inside other addr ≡ false
      rest all zero other e =
          ap (λ (m : IoMap). map_inside m addr) (sym (some_inj map other e)) ∙ miss
      rest all (suc j) other e = all j other e

-- The search of the maps gives the index of the first map that holds the address, and none exactly
-- where no map does.
pub find_mapid_by_addr-Finds :
    (maps : List IoMap) (addr : ℕ) → Finds maps addr (find_mapid_by_addr maps addr)
unfolding find_mapid_by_addr
find_mapid_by_addr-Finds [] addr = absent (λ j other e. none_ne other e)
find_mapid_by_addr-Finds (map ∷ maps) addr = elim (Bool-cases (map_inside map addr)) [
  | inl h ↦ rw h (here addr map maps h)
  | inr miss ↦
      rw miss (
        there addr map maps (find_mapid_by_addr maps addr) miss
          (find_mapid_by_addr-Finds maps addr))
]
