-- ===== src/Memory/Mmio.antt =====
-- Memory-mapped devices: map_inside and find_mapid_by_addr (include/device/map.h), map_read and
-- map_write (device/io/map.c), add_mmio_map, mmio_read and mmio_write (device/io/mmio.c).
pub mod Lookup
use nemu.Base.{
  ℕ, zero, suc, ◌+◌, ◌-◌, ◌*◌, ◌/◌, ◌%◌, ◌^◌, Bool, true, false, not, ◌&&◌, ◌||◌, ltb, leb,
}
use nemu.Base.{
  ◌==◌, if◌then◌else◌, u64, u32, List, [], ◌∷◌, ◌++◌, Option, none, some, length, get_elem?,
}
use nemu.Machine.{Machine, M, IoMap, ok, panicked, pure, panic, assert, get, ◌>>=◌, ◌>>◌, and_then}
use nemu.Memory.Host.{host_read, host_write}

abbrev pub nr_map_max : ℕ
nr_map_max = 16

unfoldable pub map_inside : IoMap → ℕ → Bool
map_inside map addr = leb map.low addr && leb addr map.high

-- The index of the first map that holds the address.
unfoldable pub find_mapid_by_addr : List IoMap → ℕ → Option ℕ
find_mapid_by_addr [] addr = none
find_mapid_by_addr (map ∷ maps) addr =
    let later = find_mapid_by_addr maps addr in
    if map_inside map addr then some 0 else elim later [ none ↦ none | some i ↦ some (suc i) ]

unfoldable pub is_in_mmio : ℕ → Machine → Bool
is_in_mmio addr s = elim (find_mapid_by_addr s.maps addr) [ none ↦ false | some i ↦ true ]

-- A new map after the others; the upper end is a sum of 64 bits.
unfoldable pub add_mmio_map : ℕ → ℕ → (ℕ → ℕ) → (ℕ → ℕ → Bool → (ℕ → ℕ) → ℕ → ℕ) → M (Unit {0})
add_mmio_map addr len space callback s =
    let map : IoMap = record {
      low = addr;
      high = u64 (addr + len + (2 ^ 64 - 1));
      space = space;
      callback = callback;
    } in
    if ltb (length s.maps) nr_map_max
    then ok tt (record s { maps = s.maps ++ (map ∷ []) })
    else panic s

-- The maps with the bytes of one device replaced.
unfoldable pub set_space : List IoMap → ℕ → (ℕ → ℕ) → List IoMap
set_space [] i space = []
set_space (map ∷ maps) zero space = record map { space = space } ∷ maps
set_space (map ∷ maps) (suc i) space = map ∷ set_space maps i space

abbrev pub or_panic : {A : Type 0} → Option A → M A
or_panic none s = panicked
or_panic (some a) s = ok a s

abbrev pub set_maps : List IoMap → M (Unit {0})
set_maps maps s = ok tt (record s { maps = maps })

-- The device prepares its bytes, then they are read. The offset of the callback is a uint32_t.
unfoldable pub map_read : ℕ → ℕ → ℕ → IoMap → M ℕ
map_read addr len id map = do
  assert (leb 1 len && leb len 8)
  assert (map_inside map addr)
  let offset = addr - map.low
  let space = map.callback (u32 offset) len false map.space
  s ← get
  set_maps (set_space s.maps id space)
  or_panic (host_read space offset len)

-- The bytes are written, then the device reacts.
unfoldable pub map_write : ℕ → ℕ → ℕ → ℕ → IoMap → M (Unit {0})
map_write addr len value id map = do
  assert (leb 1 len && leb len 8)
  assert (map_inside map addr)
  let offset = addr - map.low
  space ← or_panic (host_write map.space offset len value)
  s ← get
  set_maps (set_space s.maps id (map.callback (u32 offset) len true space))

-- fetch_mmio_map: the index and the map; where there is none, the check of the bounds fails.
unfoldable pub fetch_mmio_map : ℕ → M (ℕ × IoMap)
fetch_mmio_map addr = do
  s ← get
  id ← or_panic (find_mapid_by_addr s.maps addr)
  map ← or_panic (get_elem? s.maps id)
  pure (id, map)

unfoldable pub mmio_read : ℕ → ℕ → M ℕ
mmio_read addr len = do (id, map) ← fetch_mmio_map addr; map_read addr len id map

unfoldable pub mmio_write : ℕ → ℕ → ℕ → M (Unit {0})
mmio_write addr len value = do (id, map) ← fetch_mmio_map addr; map_write addr len value id map
