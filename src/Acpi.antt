-- ===== src/Acpi.antt =====
-- src/acpi/acpi.c over a memory that is read by address. A pointer that may be NULL is an Option,
-- and the map function with its context is a function of the physical address.
pub mod Scan
pub mod Kept
pub mod Tables
pub mod Collected
pub mod Find
pub mod Processors
use tunix_boot.Prelude.{
  ℕ, zero, suc, ◌+◌, ◌-◌, ◌*◌, ◌/◌, ◌%◌, bit_and, Bool, true, false, not, ◌&&◌, ◌||◌, Option, none,
  some, List, [], ◌∷◌, ◌++◌, ltb, leb, ◌==◌, if◌then◌else◌, length,
}
use tunix_boot.Prelude.LittleEndian.{u32_at}
use tunix_boot.Prelude.Word.{u8_mod, u32_mod, add64}
use tunix_boot.Util.Mem.{Memory, memcmp, is_equal}
use tunix_boot.Util.Reader
use tunix_boot.Util.Reader.{Reader, Read, ◌>>=◌, ◌>>◌, pure, seek, read_u8, read_u32, read_u64}

-- The bytes at an address, for what reads a buffer.
abbrev pub bytes_at : Memory → ℕ → ℕ → List ℕ
bytes_at m at zero = []
bytes_at m at (suc n) = m at ∷ bytes_at m (at + 1) n

unfoldable pub table_length : Memory → ℕ → ℕ
table_length m table = u32_at (bytes_at m (table + 4) 4) 0

-- The loop of `acpi_checksum`, with `left` bytes to go.
unfoldable pub sum_from : ℕ → Memory → ℕ → ℕ → ℕ
sum_from zero m at sum = sum
sum_from (suc left) m at sum = sum_from left m (at + 1) ((sum + m at) % u8_mod)

unfoldable pub acpi_checksum : Memory → ℕ → ℕ → Bool
acpi_checksum m at length = sum_from length m at 0 == 0

-- `"RSD PTR "`.
abbrev pub rsdp_signature : List ℕ
rsdp_signature = 82 ∷ 83 ∷ 68 ∷ 32 ∷ 80 ∷ 84 ∷ 82 ∷ 32 ∷ []

-- `acpi_rsdp_valid` of a pointer that is not NULL.
unfoldable pub acpi_rsdp_valid : Memory → ℕ → Bool
acpi_rsdp_valid m candidate =
    if not (is_equal (memcmp (bytes_at m candidate 8) rsdp_signature 8))
    then false
    else if not (acpi_checksum m candidate 20)
    then false
    else if ltb (m (candidate + 15)) 2
    then true
    else let length = u32_at (bytes_at m (candidate + 20) 4) 0 in
      if ltb length 20
      then false
      else if ltb 64 length
      then false
      else acpi_checksum m candidate length

-- The loop of `acpi_find_rsdp`, on fuel.
unfoldable pub scan_from : ℕ → Memory → ℕ → ℕ → ℕ → Option ℕ
scan_from zero m base last offset = none
scan_from (suc fuel) m base last offset = elim (leb offset last) [
  | false ↦ none
  | true ↦ elim (acpi_rsdp_valid m (base + offset)) [
    | true ↦ some (base + offset)
    | false ↦ scan_from fuel m base last (add64 offset 16)
  ]
]

-- Every round goes 16 bytes on, so one more round than there are such steps is enough.
unfoldable pub acpi_find_rsdp : Memory → Option ℕ → ℕ → Option ℕ
acpi_find_rsdp m none length = none
acpi_find_rsdp m (some region) length =
    if ltb length 20 then none else scan_from (suc (length / 16)) m region (length - 20) 0

-- `table_usable` of a pointer that is not NULL.
unfoldable pub table_usable : Memory → ℕ → Bool
table_usable m table =
    if ltb (table_length m table) 36
    then false
    else if ltb (1024 * 1024) (table_length m table)
    then false
    else acpi_checksum m table (table_length m table)

-- `struct acpi_tables`; the count is the length of the list.
pub record AcpiTables : Type 0 where
  pub entries : List ℕ
  pub rsdp : Option ℕ
  pub revision : ℕ
  pub truncated : Bool

abbrev pub max_tables : ℕ
max_tables = 64

unfoldable pub keep : Memory → Option ℕ → AcpiTables → AcpiTables
keep m none out = out
keep m (some table) out =
    if not (table_usable m table)
    then out
    else if length out.entries == max_tables
    then record out { truncated = true }
    else record out { entries = out.entries ++ table ∷ [] }

-- A map function and its context.
abbrev pub MapFn : Type 0
MapFn = ℕ → Option ℕ

-- One pointer of the root table.
abbrev pub read_pointer : Bool → Read ℕ
read_pointer true = read_u64
read_pointer false = read_u32

-- The loop over the entries, with `left` of them to go.
unfoldable pub collect_entries : ℕ → Memory → MapFn → Bool → Reader → AcpiTables → AcpiTables
collect_entries zero m map wide entries out = out
collect_entries (suc left) m map wide entries out = elim (read_pointer wide entries).0 [
  | none ↦ out
  | some pointer ↦
      collect_entries left m map wide (read_pointer wide entries).1
        (if pointer == 0 then out else keep m (map pointer) out)
]

-- A pointer at an offset of the root pointer structure, unless it is 0.
abbrev pub pointer_at : ℕ → Bool → Reader → Option ℕ
pointer_at offset wide reader = elim ((seek offset >> read_pointer wide) reader).0 [
  | none ↦ none
  | some pointer ↦ if pointer == 0 then none else some pointer
]

-- The root table, and whether its entries are wide: the XSDT if there is one, the RSDT otherwise.
unfoldable pub root_table : MapFn → ℕ → Reader → Option (ℕ × Bool)
root_table map revision reader =
    elim (if ltb revision 2
      then none
      else elim (pointer_at 24 true reader) [ none ↦ none | some xsdt ↦ map xsdt ]) [
        | some root ↦ some (root, true)
        | none ↦ elim (pointer_at 16 false reader) [
          | none ↦ none
          | some rsdt ↦ elim (map rsdt) [ none ↦ none | some root ↦ some (root, false) ]
        ]
      ]

-- `acpi_collect` from the root table on.
unfoldable pub collect_root : Memory → MapFn → ℕ × Bool → AcpiTables → Bool × AcpiTables
collect_root m map (root, wide) out =
    if not (table_usable m root)
    then (false, out)
    else let length = table_length m root in
      let stride = if wide then 8 else 4 in
      let entries = seek 36 (Reader.init (some (bytes_at m root length)) length) in
      elim entries.0 as (λ _. Bool × AcpiTables) [
        | none ↦ (false, out)
        | some _ ↦ (true, collect_entries ((length - 36) / stride) m map wide entries.1 out)
      ]

abbrev pub no_tables : AcpiTables
no_tables = record { entries = []; rsdp = none; revision = 0; truncated = false }

unfoldable pub acpi_collect : Memory → Option ℕ → MapFn → Bool × AcpiTables
acpi_collect m none map = (false, no_tables)
acpi_collect m (some rsdp) map =
    if not (acpi_rsdp_valid m rsdp)
    then (false, no_tables)
    else let out = record no_tables { rsdp = some rsdp; revision = m (rsdp + 15) } in
      elim (root_table map out.revision (Reader.init (some (bytes_at m rsdp 64)) 64)) [
        | none ↦ (false, out)
        | some root ↦ collect_root m map root out
      ]

unfoldable pub find_table_in : Memory → List ℕ → List ℕ → Option ℕ
find_table_in m [] signature = none
find_table_in m (table ∷ tables) signature =
    if is_equal (memcmp (bytes_at m table 4) signature 4)
    then some table
    else find_table_in m tables signature

unfoldable pub acpi_find_table : Memory → AcpiTables → List ℕ → Option ℕ
acpi_find_table m tables signature = find_table_in m tables.entries signature
