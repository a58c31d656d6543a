-- ===== src/Memory/Map/Coverage.antt =====
-- What a list of regions says about one address, independently of how the map is stored.
use tunix_boot.Prelude.{
  ℕ, ◌+◌, ◌≤◌, ◌<◌, ◌≡◌, ◌⊎◌, refl, Bool, ◌&&◌, ◌||◌, Option, none, List, [], ◌∷◌, ◌++◌, arith, ltb,
  leb, if◌then◌else◌, All, length, length-append, All-append,
}
use tunix_boot.Prelude.Word.{u64_mod}
use tunix_boot.Memory.Map.{
  MemoryKind, MemoryRegion, MemoryMap, region_end, take_stronger, interval_from, add, max_regions,
}

-- A region that is not empty and does not wrap.
abbrev pub IsRegion : MemoryRegion → Type 0
IsRegion r = (0 < r.length) × (r.base + r.length < u64_mod)

pub record IsWellFormed (m : MemoryMap) : Type 0 where
  pub regions : All IsRegion m.regions
  pub room : length m.regions ≤ max_regions

abbrev pub covers : MemoryRegion → ℕ → Bool
covers r a = leb r.base a && ltb a (r.base + r.length)

-- The most restrictive of `out` and the kinds of the regions that contain the address.
abbrev pub strongest_from : List MemoryRegion → ℕ → Option MemoryKind → Option MemoryKind
strongest_from [] a out = out
strongest_from (r ∷ rs) a out =
    strongest_from rs a (if covers r a then take_stronger out r.kind else out)

abbrev pub strongest : List MemoryRegion → ℕ → Option MemoryKind
strongest rs a = strongest_from rs a none

-- No region begins or ends strictly inside the interval.
abbrev pub IsElementary : ℕ → ℕ → MemoryRegion → Type 0
IsElementary start end r =
    ((r.base ≤ start) ⊎ (end ≤ r.base)) × ((region_end r ≤ start) ⊎ (end ≤ region_end r))

-- On an elementary interval the loop computes the strongest kind of each of its addresses.
pub interval_from-eq-strongest :
    (rs : List MemoryRegion) (start end a : ℕ) (out : Option MemoryKind)
    → All IsRegion rs
    → All (IsElementary start end) rs
    → start ≤ a
    → a < end
    → interval_from rs start end out ≡ strongest_from rs a out
unfolding interval_from
interval_from-eq-strongest [] start end a out w h le lt = refl
interval_from-eq-strongest (r ∷ rs) start end a out w h le lt =
    rw test (interval_from-eq-strongest rs start end a _ w.1 h.1 le lt)
  where
    test :
        (if ltb start r.base || ltb (region_end r) end then out else take_stronger out r.kind)
        ≡ (if covers r a then take_stronger out r.kind else out)
    test = ground (arith, w.0, h.0)

pub strongest_from-none :
    (rs : List MemoryRegion) (a : ℕ) (out : Option MemoryKind)
    → All (λ r. (a < r.base) ⊎ (r.base + r.length ≤ a)) rs
    → strongest_from rs a out ≡ out
strongest_from-none [] a out h = refl
strongest_from-none (r ∷ rs) a out h = rw test (strongest_from-none rs a out h.1)
  where
    test : (if covers r a then take_stronger out r.kind else out) ≡ out
    test = ground (arith, h.0)

-- A region that is added is well formed, and the array keeps its bound.
pub add-IsWellFormed :
    (m : MemoryMap) (base bytes : ℕ) (kind : MemoryKind)
    → IsWellFormed m
    → IsWellFormed (add m base bytes kind).1
unfolding add
add-IsWellFormed m base bytes kind w = record {
  regions = ground (arith, w.regions, appended);
  room = ground (arith, w.room, length-append m.regions (r ∷ []));
}
  where
    r : MemoryRegion
    r = record { base = base; length = bytes; kind = kind }

    appended : 0 < bytes → base + bytes < u64_mod → All IsRegion (m.regions ++ r ∷ [])
    appended h k = All-append IsRegion m.regions (r ∷ []) w.regions ((h, k), tt)
