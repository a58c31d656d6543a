-- ===== src/Acpi/Processors.antt =====
-- src/acpi/acpi.c: the processors that the MADT lists.
pub mod Madt
pub mod Walk
pub mod Listed
use tunix_boot.Prelude.{
  ℕ, zero, suc, ◌+◌, ◌-◌, ◌*◌, ◌/◌, ◌%◌, bit_and, Bool, true, false, not, ◌&&◌, ◌||◌, Option, none,
  some, List, [], ◌∷◌, ◌++◌, ltb, leb, ◌==◌, if◌then◌else◌, length,
}
use tunix_boot.Prelude.Word.{u32_mod}
use tunix_boot.Util.Mem.{Memory}
use tunix_boot.Util.Reader
use tunix_boot.Util.Reader.{Reader, Read, ◌>>=◌, ◌>>◌, pure, seek, read_u8, read_u32}
use tunix_boot.Acpi.{bytes_at, table_length, AcpiTables, acpi_find_table}

pub record AcpiProcessor : Type 0 where
  pub apic_id : ℕ
  pub enabled : Bool

-- `struct acpi_processors`; the count is the length of the list.
pub record AcpiProcessors : Type 0 where
  pub entries : List AcpiProcessor
  pub local_apic_address : ℕ
  pub truncated : Bool

abbrev pub max_processors : ℕ
max_processors = 256

unfoldable pub add_processor : ℕ → ℕ → AcpiProcessors → AcpiProcessors
add_processor apic_id flags out =
    if length out.entries == max_processors then record out { truncated = true } else record out {
      entries =
          out.entries ++ record { apic_id = apic_id; enabled = not (bit_and flags 3 == 0) } ∷ [];
    }

-- The identifier and the flags of a record of the type, by the offsets that the type has.
unfoldable pub processor_fields : ℕ → Read (ℕ × ℕ)
processor_fields type =
    if type == 0
    then (do seek 3; apic_id ← read_u8; seek 4; flags ← read_u32; pure (apic_id, flags))
    else (do seek 4; apic_id ← read_u32; seek 8; flags ← read_u32; pure (apic_id, flags))

-- What the body of the loop does with a record.
unfoldable pub take_record : Memory → ℕ → AcpiProcessors → AcpiProcessors
take_record m entry out =
    if (m entry == 0) || (m entry == 9)
    then elim (processor_fields (m entry)
        (Reader.init (some (bytes_at m entry (m (entry + 1)))) (m (entry + 1)))).0 [
          | none ↦ out
          | some fields ↦ add_processor fields.0 fields.1 out
        ]
    else out

-- The loop, on fuel; `offset` is a `uint32_t`.
unfoldable pub madt_from : ℕ → Memory → ℕ → ℕ → ℕ → AcpiProcessors → AcpiProcessors
madt_from zero m madt length offset out = out
madt_from (suc fuel) m madt length offset out =
    elim (leb ((offset + 2) % u32_mod) length
      && leb 2 (m (madt + offset + 1))
      && leb ((offset + m (madt + offset + 1)) % u32_mod) length) [
        | false ↦ out
        | true ↦
            madt_from fuel m madt length ((offset + m (madt + offset + 1)) % u32_mod)
              (take_record m (madt + offset) out)
      ]

abbrev pub no_processors : AcpiProcessors
no_processors = record { entries = []; local_apic_address = 0; truncated = false }

-- `acpi_processors` of a table that was found.
unfoldable pub read_madt : Memory → ℕ → Bool × AcpiProcessors
read_madt m madt =
    let bytes = table_length m madt in
    if ltb bytes 44
    then (false, no_processors)
    else elim ((seek 36 >> read_u32) (Reader.init (some (bytes_at m madt bytes)) bytes)).0 [
      | none ↦ (false, no_processors)
      | some local_apic ↦
          let out =
            madt_from bytes m madt bytes 44
              (record no_processors { local_apic_address = local_apic }) in
          (not (length out.entries == 0), out)
    ]

-- `"APIC"`.
abbrev pub signature_madt : List ℕ
signature_madt = 65 ∷ 80 ∷ 73 ∷ 67 ∷ []

unfoldable pub acpi_processors : Memory → AcpiTables → Bool × AcpiProcessors
acpi_processors m tables = elim (acpi_find_table m tables signature_madt) [
  | none ↦ (false, no_processors)
  | some madt ↦ read_madt m madt
]
