-- ===== src/Memory/Arena.antt =====
-- src/memory/arena.c: the bump allocator. Addresses are numbers; `none` is NULL.
pub mod Bounds
pub mod Blocks
use tunix_boot.Prelude.{
  ℕ, ◌+◌, ◌-◌, Bool, true, false, not, ◌&&◌, Option, none, some, List, [], ◌∷◌, ltb, leb, ◌==◌,
  if◌then◌else◌, bit_and,
}
use tunix_boot.Prelude.Word.{add64, sub64}
use tunix_boot.Util.Checked.{checked_add, checked_mul, clear_low}
use tunix_boot.Util.Mem.{Memory, memset}

-- A NULL base is 0.
pub record Arena : Type 0 where
  pub base : ℕ
  pub capacity : ℕ
  pub used : ℕ

abbrev pub default_alignment : ℕ
default_alignment = 16

unfoldable pub is_power_of_two : ℕ → Bool
is_power_of_two v = not (v == 0) && (bit_and v (v - 1) == 0)

unfoldable pub init : ℕ → ℕ → Arena
init base capacity = record { base = base; capacity = if base == 0 then 0 else capacity; used = 0 }

-- The address where an allocation of this alignment would start.
abbrev pub aligned_at : Arena → ℕ → ℕ
aligned_at a alignment = clear_low (add64 (add64 a.base a.used) (alignment - 1)) alignment

unfoldable pub allocate_aligned : Arena → ℕ → ℕ → Option ℕ × Arena
allocate_aligned a size alignment =
    let current = add64 a.base a.used in
    let aligned = aligned_at a alignment in
    let padding = sub64 aligned current in
    if not (is_power_of_two alignment)
    then (none, a)
    else if size == 0
    then (none, a)
    else elim (checked_add padding size) [
      | none ↦ (none, a)
      | some needed ↦
          if ltb (sub64 a.capacity a.used) needed
          then (none, a)
          else (some aligned, record a { used = add64 a.used needed })
    ]

unfoldable pub allocate : Arena → ℕ → Option ℕ × Arena
allocate a size = allocate_aligned a size default_alignment

-- The memory comes back too, since `memset` clears the block.
unfoldable pub allocate_zeroed : Arena → ℕ → Memory → Option ℕ × Arena × Memory
allocate_zeroed a size m =
    let (block, a') = allocate a size in
    elim block [ none ↦ (none, a', m) | some at ↦ (some at, a', memset at 0 size m) ]

unfoldable pub allocate_array : Arena → ℕ → ℕ → Option ℕ × Arena
allocate_array a count size = elim (checked_mul count size) [
  | none ↦ (none, a)
  | some total ↦ allocate a total
]

unfoldable pub available : Arena → ℕ
available a = sub64 a.capacity a.used

unfoldable pub reset : Arena → Arena
reset a = record a { used = 0 }

unfoldable pub mark : Arena → ℕ
mark a = a.used

unfoldable pub release : Arena → ℕ → Arena
release a m = if leb m a.used then record a { used = m } else a
