-- ===== src/Firmware/E820.antt =====
-- src/fw/bios/e820.c. A function that fills `*out` returns its Boolean and the map that it leaves
-- behind; a `break` keeps the map so far.
pub mod Claims
use Prim.Native.Nat.{bit_and}
use tunix_boot.Prelude.{
  ℕ, zero, suc, ◌+◌, ◌*◌, Bool, true, false, Option, none, some, List, ltb, ◌==◌, if◌then◌else◌,
}
use tunix_boot.Util.Checked.{checked_mul}
use tunix_boot.Util.Reader
use tunix_boot.Util.Reader.{Reader, Read, ◌>>=◌, pure, read_u32, read_u64}
use tunix_boot.Memory.Map.{
  MemoryKind, usable, acpi_reclaimable, acpi_nvs, reserved, bad, MemoryMap, clear, add, finalize,
  total,
}

unfoldable pub e820_kind : ℕ → MemoryKind
e820_kind type =
    if type == 1
    then usable
    else if type == 3
    then acpi_reclaimable
    else if type == 4
    then acpi_nvs
    else if type == 5
    then bad
    else reserved

-- The fields of one entry.
pub record Entry : Type 0 where
  pub base : ℕ
  pub length : ℕ
  pub type : ℕ
  pub attributes : ℕ

unfoldable pub entry_fields : Read Entry
entry_fields = do
  base ← read_u64
  region_length ← read_u64
  type ← read_u32
  attributes ← read_u32
  pure (record { base = base; length = region_length; type = type; attributes = attributes })

-- What the loop does with an entry.
unfoldable pub take_entry : MemoryMap → Entry → MemoryMap
take_entry out e =
    if bit_and e.attributes 1 == 0 then out else (add out e.base e.length (e820_kind e.type)).1

-- The loop, with `left` entries to go.
unfoldable pub e820_entries : ℕ → Reader → MemoryMap → MemoryMap
e820_entries zero reader out = out
e820_entries (suc left) reader out = elim (entry_fields reader).0 [
  | none ↦ out
  | some e ↦ e820_entries left (entry_fields reader).1 (take_entry out e)
]

abbrev pub max_entries : ℕ
max_entries = 128

-- `count`, cut off.
abbrev pub bounded_count : ℕ → ℕ
bounded_count count = if ltb max_entries count then max_entries else count

-- The end of both parsers.
abbrev pub finish : MemoryMap → Bool × MemoryMap
finish out = (ltb 0 (total (finalize out) usable), finalize out)

unfoldable pub e820_parse : Option (List ℕ) → ℕ → Bool × MemoryMap
e820_parse none count = (false, clear)
e820_parse (some buffer) count =
    if count == 0 then (false, clear) else elim (checked_mul (bounded_count count) 24) [
      | none ↦ (false, clear)
      | some length ↦
          finish (e820_entries (bounded_count count) (Reader.init (some buffer) length) clear)
    ]
