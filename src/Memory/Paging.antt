-- ===== src/Memory/Paging.antt =====
-- src/memory/paging.c. The page tables are 64-bit words in memory: `words` is the word at an address
-- that is a multiple of 8, and `table[i]` is the word at `table + 8 * i`. Physical addresses are
-- pointers, as in the source.
pub mod Address
pub mod Pages
use Prim.Native.Nat.{bit_and}
use tunix_boot.Prelude.{
  ℕ, zero, suc, ◌+◌, ◌-◌, ◌*◌, ◌/◌, ◌%◌, ◌^◌, bit_or, Bool, true, false, not, ◌&&◌, ◌||◌, Option,
  none, some, ltb, leb, ◌==◌, if◌then◌else◌,
}
use tunix_boot.Prelude.Word.{u64_mod, add64, sub64}
use tunix_boot.Util.Checked.{checked_add}
use tunix_boot.Memory.Arena.{Arena, allocate_aligned}

abbrev pub page_bytes : ℕ
page_bytes = 4096

abbrev pub page_large_bytes : ℕ
page_large_bytes = 2 * 1024 * 1024

abbrev pub page_huge_bytes : ℕ
page_huge_bytes = 1024 * 1024 * 1024

abbrev pub page_address_mask : ℕ
page_address_mask = 0x000FFFFFFFFFF000

-- `struct page_tables`, with the arena and the words of memory that the calls change.
pub record PageTables : Type 0 where
  pub arena : Arena
  pub root : ℕ
  pub huge_pages : Bool
  pub words : ℕ → ℕ

abbrev pub shift_of : ℕ → ℕ
shift_of level = 12 + 9 * (level - 1)

unfoldable pub index_at : ℕ → ℕ → ℕ
index_at virtual level = bit_and (virtual / 2 ^ shift_of level) 0x1FF

unfoldable pub level_span : ℕ → ℕ
level_span level = 2 ^ shift_of level % u64_mod

unfoldable pub paging_address_is_canonical : ℕ → Bool
paging_address_is_canonical address =
    let sign = bit_and (address / 2 ^ 47) 1 in
    let upper = address / 2 ^ 48 in
    if sign == 0 then upper == 0 else upper == (u64_mod - 1) / 2 ^ 48

-- The words of a block that `memset` clears.
abbrev pub cleared : (ℕ → ℕ) → ℕ → ℕ → ℕ → ℕ
cleared words at count p = if leb at p && ltb p (at + count) then 0 else words p

-- `none` is NULL.
unfoldable pub allocate_table : PageTables → Option ℕ × PageTables
allocate_table tables =
    let (memory, arena) = allocate_aligned tables.arena 4096 page_bytes in
    elim memory [
      | none ↦ (none, record tables { arena = arena })
      | some at ↦ (some at, record tables { arena = arena; words = cleared tables.words at 4096 })
    ]

-- `paging_create`; `tables` before the call matters only for its memory.
unfoldable pub paging_create : PageTables → Arena → Bool → Bool × PageTables
paging_create tables arena huge_pages =
    let (root, made) = allocate_table (record tables { arena = arena; huge_pages = huge_pages }) in
    elim root [ none ↦ (false, made) | some at ↦ (true, record made { root = at }) ]

-- The address of the entry.
abbrev pub entry_at : ℕ → ℕ → ℕ → ℕ
entry_at table virtual level = add64 table (8 * index_at virtual level)

abbrev pub write_word : PageTables → ℕ → ℕ → PageTables
write_word tables at value = record tables {
  words = λ p. if p == at then value else tables.words p;
}

-- `descend` with `create`; the other value is never passed.
unfoldable pub descend : PageTables → ℕ → ℕ → ℕ → Option ℕ × PageTables
descend tables table level virtual =
    let at = entry_at table virtual level in
    let entry = tables.words at in
    if not (bit_and entry 1 == 0)
    then if ltb 1 level && not (bit_and entry 0x80 == 0)
      then (none, tables)
      else (some (bit_and entry page_address_mask), tables)
    else let (next, made) = allocate_table tables in
      elim next [
        | none ↦ (none, made)
        | some child ↦
            (some child, write_word made at (bit_or (bit_and child page_address_mask) 0x7))
      ]

unfoldable pub page_size_for : Bool → ℕ → ℕ → ℕ → ℕ
page_size_for huge_pages virtual physical remaining =
    if huge_pages
      && leb page_huge_bytes remaining
      && (virtual % page_huge_bytes == 0)
      && (physical % page_huge_bytes == 0)
    then page_huge_bytes
    else if leb page_large_bytes remaining
        && (virtual % page_large_bytes == 0)
        && (physical % page_large_bytes == 0)
    then page_large_bytes
    else page_bytes

unfoldable pub level_for : ℕ → ℕ
level_for page_size =
    if page_size == page_huge_bytes then 3 else if page_size == page_large_bytes then 2 else 1

-- The loop of `map_one` from `level` down, with `steps` levels to go.
unfoldable pub descend_levels : ℕ → ℕ → ℕ → ℕ → PageTables → Option ℕ × PageTables
descend_levels zero level virtual table tables = (some table, tables)
descend_levels (suc steps) level virtual table tables =
    elim (descend tables table level virtual).0 [
      | none ↦ (none, (descend tables table level virtual).1)
      | some next ↦
          descend_levels steps (level - 1) virtual next (descend tables table level virtual).1
    ]

abbrev pub leaf_value : ℕ → ℕ → ℕ → ℕ
leaf_value physical flags leaf_level =
    let value = bit_or (bit_or (bit_and physical page_address_mask) flags) 1 in
    if not (leaf_level == 1) then bit_or value 0x80 else value

unfoldable pub map_one : PageTables → ℕ → ℕ → ℕ → ℕ → Bool × PageTables
map_one tables virtual physical page_size flags =
    let leaf_level = level_for page_size in
    let (table, made) = descend_levels (4 - leaf_level) 4 virtual tables.root tables in
    elim table [
      | none ↦ (false, made)
      | some leaf ↦
          if not (bit_and (made.words (entry_at leaf virtual leaf_level)) 1 == 0)
          then (false, made)
          else (
            true,
            write_word made (entry_at leaf virtual leaf_level)
                (leaf_value physical flags leaf_level),
          )
    ]

-- The loop of `paging_map`: every round maps at least 4096 bytes of what remains.
unfoldable pub map_pages : ℕ → ℕ → ℕ → ℕ → ℕ → PageTables → Bool × PageTables
map_pages zero virtual physical remaining flags tables = (true, tables)
map_pages (suc fuel) virtual physical remaining flags tables = elim (remaining == 0) [
  | true ↦ (true, tables)
  | false ↦
      let page_size = page_size_for tables.huge_pages virtual physical remaining in
      elim (map_one tables virtual physical page_size flags).0 [
        | false ↦ (false, (map_one tables virtual physical page_size flags).1)
        | true ↦
            map_pages fuel (add64 virtual page_size) (add64 physical page_size)
              (sub64 remaining page_size) flags (map_one tables virtual physical page_size flags).1
      ]
]

-- The guards of `paging_map`.
unfoldable pub map_allowed : PageTables → ℕ → ℕ → ℕ → ℕ → Bool
map_allowed tables virtual physical bytes flags =
    not (tables.root == 0)
    && not (bytes == 0)
    && (virtual % page_bytes == 0)
    && (physical % page_bytes == 0)
    && (bytes % page_bytes == 0)
    && elim (checked_add virtual bytes) [
      | none ↦ false
      | some virtual_end ↦ elim (checked_add physical bytes) [
        | none ↦ false
        | some _ ↦
            paging_address_is_canonical virtual
            && paging_address_is_canonical (virtual_end - 1)
            && (bit_and flags (bit_or page_address_mask 0x80) == 0)
      ]
    ]

unfoldable pub paging_map : PageTables → ℕ → ℕ → ℕ → ℕ → Bool × PageTables
paging_map tables virtual physical bytes flags =
    if not (map_allowed tables virtual physical bytes flags)
    then (false, tables)
    else map_pages (bytes / page_bytes) virtual physical bytes flags tables

-- The loop of `paging_translate`, with `level` levels to go.
unfoldable pub translate_from : ℕ → PageTables → ℕ → ℕ → Option (ℕ × ℕ)
translate_from zero tables virtual table = none
translate_from (suc below) tables virtual table =
    let level = suc below in
    let entry = tables.words (entry_at table virtual level) in
    let base = bit_and entry page_address_mask in
    let lower = translate_from below tables virtual base in
    if bit_and entry 1 == 0
    then none
    else if (level == 1) || (ltb level 4 && not (bit_and entry 0x80 == 0))
    then some (
      add64 base (virtual % (if level == 1 then page_bytes else level_span level)),
      bit_and entry (u64_mod - 1 - page_address_mask),
    )
    else lower

-- The physical address and the flags.
unfoldable pub paging_translate : PageTables → ℕ → Option (ℕ × ℕ)
paging_translate tables virtual =
    if tables.root == 0
    then none
    else if not (paging_address_is_canonical virtual)
    then none
    else translate_from 4 tables virtual tables.root
