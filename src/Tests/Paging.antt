-- ===== src/Tests/Paging.antt =====
-- src/memory/paging.c on small inputs.
use tunix_boot.Prelude.{◌+◌, ◌^◌, ◌≡◌, refl, true, some, arith}
use tunix_boot.Util.Checked.{checked_add, clear_low}
use tunix_boot.Memory.Arena.{Arena, allocate_aligned, is_power_of_two}
use tunix_boot.Memory.Paging.{
  PageTables, allocate_table, paging_create, descend, descend_levels, index_at, level_span,
  level_for, page_size_for, map_one, map_pages, map_allowed, paging_map, translate_from,
  paging_translate, paging_address_is_canonical,
}
use tunix_boot.Memory.Paging.Pages.{map_pages_enough}

abbrev arena : Arena
arena = record { base = 0x10000; capacity = 0x10000; used = 0 }

abbrev no_tables : PageTables
no_tables = record { arena = arena; root = 0; huge_pages = true; words = λ _. 0 }

abbrev created : PageTables
created = (paging_create no_tables arena true).1

-- Two pages, mapped and translated.
map_and_translate_run :
    paging_translate (paging_map created 0x7000 0x3000 0x2000 2).1 0x8123 ≡ some (0x4123, 3)
unfolding paging_create paging_map map_allowed map_pages map_one descend_levels descend
    allocate_table allocate_aligned is_power_of_two clear_low checked_add index_at level_span
    level_for page_size_for translate_from paging_translate paging_address_is_canonical
map_and_translate_run = refl

map_pages_enough_example :
    map_pages (2 + 5) 0x7000 0x3000 0x2000 2 created ≡ map_pages 2 0x7000 0x3000 0x2000 2 created
map_pages_enough_example =
    map_pages_enough 2 5 0x7000 0x3000 0x2000 2 created (omega arith) (omega arith) (omega arith)

-- The address in an entry has 52 bits: what a physical address has above them is lost.
map_above_52_bits_run :
    ((paging_map created 0x7000 (2 ^ 52 + 0x3000) 0x1000 2).0 ≡ true)
    × (paging_translate (paging_map created 0x7000 (2 ^ 52 + 0x3000) 0x1000 2).1 0x7000
        ≡ some (0x3000, 3))
unfolding paging_create paging_map map_allowed map_pages map_one descend_levels descend
    allocate_table allocate_aligned is_power_of_two clear_low checked_add index_at level_span
    level_for page_size_for translate_from paging_translate paging_address_is_canonical
map_above_52_bits_run = (refl, refl)
