-- ===== src/Tests/Acpi.antt =====
-- src/acpi/acpi.c on a root pointer structure at 16, an RSDT at 64 and a MADT at 128.
use tunix_boot.Prelude.{
  ℕ, ◌≡◌, ◌≤◌, ◌<◌, refl, true, false, some, List, [], ◌∷◌, ◌++◌, arith, get_or, replicate,
}
use tunix_boot.Tests.Disk.{are_bytes-All}
use tunix_boot.Util.Mem.{Memory, memcmp, memcmp_from}
use tunix_boot.Util.Reader
use tunix_boot.Util.Reader.{seek, read_u8, read_u32, scalar, little_endian, little_endian_from, has}
use tunix_boot.Util.Reader.Scalar.{get_or-IsByte}
use tunix_boot.Acpi.{
  table_length, sum_from, acpi_checksum, acpi_rsdp_valid, scan_from, acpi_find_rsdp, table_usable,
  AcpiTables, MapFn, keep, collect_entries, root_table, collect_root, acpi_collect, find_table_in,
  acpi_find_table,
}
use tunix_boot.Acpi.Scan.{IsFirst, acpi_find_rsdp-IsFirst}
use tunix_boot.Acpi.Collected.{Collects, acpi_collect-Collects}
use tunix_boot.Acpi.Processors.{
  signature_madt, add_processor, processor_fields, take_record, madt_from, read_madt,
  acpi_processors,
}
use tunix_boot.Acpi.Processors.Listed.{IsListed, acpi_processors-IsListed}

abbrev bytes : List ℕ
bytes =
    replicate 16 0
    ++ (82 ∷ 83 ∷ 68 ∷ 32 ∷ 80 ∷ 84 ∷ 82 ∷ 32 ∷ 161 ∷ [])
    ++ replicate 7 0
    ++ (64 ∷ [])
    ++ replicate 31 0
    ++ (82 ∷ 83 ∷ 68 ∷ 84 ∷ 40 ∷ 0 ∷ 0 ∷ 0 ∷ 0 ∷ 27 ∷ [])
    ++ replicate 26 0
    ++ (128 ∷ [])
    ++ replicate 27 0
    ++ (65 ∷ 80 ∷ 73 ∷ 67 ∷ 64 ∷ 0 ∷ 0 ∷ 0 ∷ 0 ∷ 161 ∷ [])
    ++ replicate 28 0
    ++ (224 ∷ 254 ∷ 0 ∷ 0 ∷ 0 ∷ 0 ∷ 0 ∷ 8 ∷ 0 ∷ 3 ∷ 1 ∷ 0 ∷ 0 ∷ 0 ∷ 0 ∷ 12 ∷ 7 ∷ 5 ∷ [])
    ++ replicate 8 0

abbrev memory : Memory
memory a = get_or bytes a 0

memory_octets : (a : ℕ) → memory a < 256
memory_octets a = get_or-IsByte bytes a (are_bytes-All bytes refl)

abbrev identity : MapFn
identity physical = some physical

find_rsdp_run : acpi_find_rsdp memory (some 0) 192 ≡ some 16
unfolding acpi_find_rsdp scan_from acpi_rsdp_valid acpi_checksum sum_from memcmp memcmp_from
find_rsdp_run = refl

acpi_find_rsdp-IsFirst_example : IsFirst memory 0 192 0 (acpi_find_rsdp memory (some 0) 192)
acpi_find_rsdp-IsFirst_example = acpi_find_rsdp-IsFirst memory 0 192 (omega arith)

abbrev tables : AcpiTables
tables = record { entries = 128 ∷ []; rsdp = some 16; revision = 0; truncated = false }

collects : acpi_collect memory (some 16) identity ≡ (true, tables)
unfolding acpi_collect acpi_rsdp_valid acpi_checksum sum_from memcmp memcmp_from root_table
    collect_root table_usable table_length collect_entries keep Reader.init seek read_u32 scalar
    little_endian little_endian_from has
collects = refl

acpi_collect-Collects_example : Collects memory identity 16 tables
acpi_collect-Collects_example =
    acpi_collect-Collects memory identity 16 tables memory_octets collects

finds : acpi_find_table memory tables signature_madt ≡ some 128
unfolding acpi_find_table find_table_in memcmp memcmp_from
finds = refl

big_enough : 44 ≤ table_length memory 128
unfolding table_length
big_enough = omega arith

acpi_processors_run :
    (acpi_processors memory tables).1.entries
    ≡ record { apic_id = 3; enabled = true } ∷ record { apic_id = 5; enabled = false } ∷ []
unfolding acpi_processors acpi_find_table find_table_in memcmp memcmp_from read_madt table_length
    madt_from take_record processor_fields add_processor Reader.init seek read_u8 read_u32 scalar
    little_endian little_endian_from has
acpi_processors_run = refl

acpi_processors-IsListed_example : IsListed memory 128 (acpi_processors memory tables)
acpi_processors-IsListed_example =
    acpi_processors-IsListed memory identity 16 128 tables memory_octets collects finds big_enough
