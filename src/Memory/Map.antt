-- ===== src/Memory/Map.antt =====
-- src/memory/map.c: the firmware's claims about physical memory, made sorted and disjoint.
-- `regions[0..count)` is a list; the entries past `count` are never read.
pub mod Coverage
pub mod Boundaries
pub mod Sweep
pub mod Finalize
pub mod Search
pub mod SearchHigh
use tunix_boot.Prelude.{
  ℕ, ◌+◌, ◌-◌, Bool, true, false, not, ◌&&◌, ◌||◌, Option, none, some, List, [], ◌∷◌, ◌++◌, ltb,
  leb, ◌==◌, if◌then◌else◌, length, rev_append,
}
use tunix_boot.Prelude.Word.{add64, sub64}
use tunix_boot.Util.Checked.{checked_add, checked_align_up, bad_alignment, clear_low}

-- `enum memory_kind`, in order of precedence.
pub data MemoryKind : Type 0 where
  usable bootloader_reclaimable acpi_reclaimable acpi_nvs framebuffer kernel reserved bad :
      MemoryKind

-- The value of the enumerator.
unfoldable pub rank : MemoryKind → ℕ
rank usable = 0
rank bootloader_reclaimable = 1
rank acpi_reclaimable = 2
rank acpi_nvs = 3
rank framebuffer = 4
rank kernel = 5
rank reserved = 6
rank bad = 7

abbrev pub same_kind : MemoryKind → MemoryKind → Bool
same_kind a b = rank a == rank b

pub record MemoryRegion : Type 0 where
  pub base : ℕ
  pub length : ℕ
  pub kind : MemoryKind

pub record MemoryMap : Type 0 where
  pub regions : List MemoryRegion
  pub truncated : Bool

abbrev pub max_regions : ℕ
max_regions = 128

abbrev pub region_end : MemoryRegion → ℕ
region_end r = add64 r.base r.length

unfoldable pub clear : MemoryMap
clear = record { regions = []; truncated = false }

-- `memory_map_add`.
unfoldable pub add : MemoryMap → ℕ → ℕ → MemoryKind → Bool × MemoryMap
unfolding checked_add
add m base bytes kind = if bytes == 0 then (false, m) else elim (checked_add base bytes) [
  | none ↦ (false, m)
  | some _ ↦ if length m.regions == max_regions then (false, record m { truncated = true }) else (
    true,
    record m { regions = m.regions ++ record { base = base; length = bytes; kind = kind } ∷ [] },
  )
]

-- The edges of all regions, in the order in which `collect_boundaries` stores them.
unfoldable pub edges : List MemoryRegion → List ℕ
edges [] = []
edges (r ∷ rs) = r.base ∷ region_end r ∷ edges rs

-- The inner loop of the insertion sort: `position` walks down from the end of the sorted prefix,
-- which is the list here, its end first.
unfoldable pub insert_down : ℕ → List ℕ → List ℕ
insert_down value [] = value ∷ []
insert_down value (x ∷ xs) = if ltb value x then x ∷ insert_down value xs else value ∷ x ∷ xs

-- The outer loop.
unfoldable pub sort_down : List ℕ → List ℕ → List ℕ
unfolding insert_down
sort_down sorted [] = sorted
sort_down sorted (x ∷ xs) = sort_down (insert_down x sorted) xs

-- The last loop, which keeps an entry that differs from the last one kept.
unfoldable pub unique_after : Option ℕ → List ℕ → List ℕ
unique_after last [] = []
unique_after none (x ∷ xs) = x ∷ unique_after (some x) xs
unique_after (some y) (x ∷ xs) =
    let kept = x ∷ unique_after (some x) xs in
    let skipped = unique_after (some y) xs in if y == x then skipped else kept

unfoldable pub collect_boundaries : MemoryMap → List ℕ
unfolding edges sort_down unique_after
collect_boundaries m = unique_after none (rev_append (sort_down [] (edges m.regions)) [])

-- `if (!covered || region->kind > *out) *out = region->kind; covered = true;`
unfoldable pub take_stronger : Option MemoryKind → MemoryKind → Option MemoryKind
take_stronger none kind = some kind
take_stronger (some k) kind = if ltb (rank k) (rank kind) then some kind else some k

-- The loop of `interval_kind`; the accumulator is `covered` and `*out`.
unfoldable pub interval_from : List MemoryRegion → ℕ → ℕ → Option MemoryKind → Option MemoryKind
unfolding take_stronger
interval_from [] start end out = out
interval_from (r ∷ rs) start end out =
    interval_from rs start end
      (if ltb start r.base || ltb (region_end r) end then out else take_stronger out r.kind)

unfoldable pub interval_kind : MemoryMap → ℕ → ℕ → Option MemoryKind
unfolding interval_from
interval_kind m start end = interval_from m.regions start end none

-- One interval of kind `kind` after the result so far, the last region first; `none` is the
-- `break` for want of room.
unfoldable pub push_interval : List MemoryRegion → ℕ → ℕ → MemoryKind → Option (List MemoryRegion)
push_interval [] start end kind =
    some (record { base = start; length = sub64 end start; kind = kind } ∷ [])
push_interval (last ∷ rest) start end kind =
    if same_kind last.kind kind && (region_end last == start)
    then some (record last { length = add64 last.length (sub64 end start) } ∷ rest)
    else if length (last ∷ rest) == max_regions
    then none
    else some (record { base = start; length = sub64 end start; kind = kind } ∷ last ∷ rest)

-- The sweep of `memory_map_finalize` from the boundary `start` on. The flag is `truncated`.
unfoldable pub sweep : MemoryMap → ℕ → List ℕ → List MemoryRegion → Bool → List MemoryRegion × Bool
sweep m start [] result truncated = (result, truncated)
sweep m start (end ∷ ends) result truncated = elim (interval_kind m start end) [
  | none ↦ sweep m end ends result truncated
  | some kind ↦ elim (push_interval result start end kind) [
    | none ↦ (result, true)
    | some result' ↦ sweep m end ends result' truncated
  ]
]

abbrev pub sweep_all : MemoryMap → List ℕ → List MemoryRegion × Bool
sweep_all m [] = ([], m.truncated)
sweep_all m (start ∷ ends) = sweep m start ends [] m.truncated

-- `memory_map_finalize`.
unfoldable pub finalize : MemoryMap → MemoryMap
unfolding collect_boundaries sweep interval_kind push_interval rank
finalize m = elim m.regions [
  | [] ↦ m
  | _ ∷ _ ↦
      let (result, truncated) = sweep_all m (collect_boundaries m) in
      record { regions = rev_append result []; truncated = truncated }
]

-- The loop of `memory_map_total`; the accumulator is `total`.
unfoldable pub total_from : MemoryKind → List MemoryRegion → ℕ → ℕ
unfolding rank
total_from kind [] sum = sum
total_from kind (r ∷ rs) sum =
    total_from kind rs (if same_kind r.kind kind then add64 sum r.length else sum)

unfoldable pub total : MemoryMap → MemoryKind → ℕ
unfolding total_from
total m kind = total_from kind m.regions 0

-- The loop of `memory_map_find`; `none` is NULL.
unfoldable pub find_in : List MemoryRegion → ℕ → Option MemoryRegion
find_in [] address = none
find_in (r ∷ rs) address =
    if leb r.base address && ltb address (region_end r) then some r else find_in rs address

unfoldable pub find : MemoryMap → ℕ → Option MemoryRegion
unfolding find_in
find m address = find_in m.regions address

-- The body of the loop of `memory_map_find_free` for one region; `none` is a `continue`.
unfoldable pub fit_low : MemoryRegion → ℕ → ℕ → ℕ → Option ℕ
fit_low r size alignment minimum =
    if not (same_kind r.kind usable)
    then none
    else elim (checked_align_up (if ltb minimum r.base then r.base else minimum) alignment) [
      | none ↦ none
      | some start ↦ if ltb start r.base then none else elim (checked_add start size) [
        | none ↦ none
        | some finish ↦ if ltb (region_end r) finish then none else some start
      ]
    ]

unfoldable pub find_free_in : List MemoryRegion → ℕ → ℕ → ℕ → Option ℕ
find_free_in [] size alignment minimum = none
find_free_in (r ∷ rs) size alignment minimum = elim (fit_low r size alignment minimum) [
  | none ↦ find_free_in rs size alignment minimum
  | some start ↦ some start
]

unfoldable pub find_free : MemoryMap → ℕ → ℕ → ℕ → Option ℕ
find_free m size alignment minimum =
    if size == 0
    then none
    else if bad_alignment alignment
    then none
    else find_free_in m.regions size alignment minimum

-- The same for `memory_map_find_free_high`.
unfoldable pub fit_high : MemoryRegion → ℕ → ℕ → ℕ → Option ℕ
fit_high r size alignment limit =
    let end = if ltb limit (region_end r) then limit else region_end r in
    let start = clear_low (sub64 end size) alignment in
    if not (same_kind r.kind usable)
    then none
    else if ltb end size
    then none
    else if ltb start r.base
    then none
    else if ltb end (add64 start size)
    then none
    else some start

unfoldable pub find_high_from : List MemoryRegion → ℕ → ℕ → ℕ → Option ℕ → Option ℕ
find_high_from [] size alignment limit found = found
find_high_from (r ∷ rs) size alignment limit found =
    find_high_from rs size alignment limit (elim (fit_high r size alignment limit) [
      | none ↦ found
      | some start ↦ elim found [
        | none ↦ some start
        | some best ↦ if ltb best start then some start else some best
      ]
    ])

unfoldable pub find_free_high : MemoryMap → ℕ → ℕ → ℕ → Option ℕ
find_free_high m size alignment limit =
    if size == 0
    then none
    else if bad_alignment alignment
    then none
    else find_high_from m.regions size alignment limit none
