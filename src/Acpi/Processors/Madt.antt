-- ===== src/Acpi/Processors/Madt.antt =====
-- The walk over the records of the MADT: what it adds, and that it ends.
use tunix_boot.Prelude.{
  ℕ, ◌+◌, bit_and, ◌≡◌, ◌≤◌, ◌<◌, inl, inr, refl, not, none, some, List, [], ◌∷◌, arith, drop, ltb,
  leb, ◌==◌, if◌then◌else◌, Bool-cases,
}
use tunix_boot.Util.Mem.{Memory}
use tunix_boot.Util.Reader.Scalar.{le_value}
use tunix_boot.Util.Reader.At.{
  IsBuffer, cursor, read_u8-at, read_u32-at, seek-at, read_u8-past, read_u32-past, seek-past,
}
use tunix_boot.Acpi.{bytes_at}
use tunix_boot.Acpi.Processors.{AcpiProcessor, processor_fields}

abbrev pub bytes_of : Memory → ℕ → List ℕ
bytes_of m entry = bytes_at m entry (m (entry + 1))

-- The processor with the identifier and the flags.
abbrev pub processor_with : ℕ → ℕ → AcpiProcessor
processor_with apic_id flags = record { apic_id = apic_id; enabled = not (bit_and flags 3 == 0) }

-- The processor that a record describes: a local APIC of 8 bytes at least, or a local x2APIC of 12.
unfoldable pub described_by : Memory → ℕ → List AcpiProcessor
described_by m entry =
    if m entry == 0
    then if leb 8 (m (entry + 1))
      then processor_with (le_value (drop 3 (bytes_of m entry)) 1)
          (le_value (drop 4 (bytes_of m entry)) 4)
        ∷ []
      else []
    else if m entry == 9
    then if leb 12 (m (entry + 1))
      then processor_with (le_value (drop 4 (bytes_of m entry)) 4)
          (le_value (drop 8 (bytes_of m entry)) 4)
        ∷ []
      else []
    else []

module _ (bytes : List ℕ) (n : ℕ) (b : IsBuffer bytes n) where
  pub local_apic-fields :
      8 ≤ n
      → (processor_fields 0 (cursor bytes n 0)).0
        ≡ some (le_value (drop 3 bytes) 1, le_value (drop 4 bytes) 4)
  unfolding processor_fields
  local_apic-fields le = ground (
    arith,
    seek-at bytes n 0 3 (omega arith),
    read_u8-at bytes n 3 4 b refl (omega arith),
    seek-at bytes n 4 4 (omega arith),
    read_u32-at bytes n 4 8 b refl (omega arith),
  )

  pub local_apic-short : n < 8 → (processor_fields 0 (cursor bytes n 0)).0 ≡ none
  unfolding processor_fields
  local_apic-short short = elim (Bool-cases (ltb n 3)) [
    | inl none_there ↦ ground (arith, seek-past bytes n 0 3 (ground arith))
    | inr there ↦ elim (Bool-cases (ltb n 4)) [
      | inl stops ↦ ground (
        arith,
        seek-at bytes n 0 3 (ground arith),
        read_u8-past bytes n 3 b (ground arith) (ground arith),
      )
      | inr goes ↦ ground (
        arith,
        seek-at bytes n 0 3 (ground arith),
        read_u8-at bytes n 3 4 b refl (ground arith),
        seek-at bytes n 4 4 (ground arith),
        read_u32-past bytes n 4 b (ground arith) (omega arith),
      )
    ]
  ]

  pub local_x2apic-fields :
      12 ≤ n
      → (processor_fields 9 (cursor bytes n 0)).0
        ≡ some (le_value (drop 4 bytes) 4, le_value (drop 8 bytes) 4)
  unfolding processor_fields
  local_x2apic-fields le = ground (
    arith,
    seek-at bytes n 0 4 (omega arith),
    read_u32-at bytes n 4 8 b refl (omega arith),
    seek-at bytes n 8 8 (omega arith),
    read_u32-at bytes n 8 12 b refl (omega arith),
  )

  pub local_x2apic-short : n < 12 → (processor_fields 9 (cursor bytes n 0)).0 ≡ none
  unfolding processor_fields
  local_x2apic-short short = elim (Bool-cases (ltb n 4)) [
    | inl none_there ↦ ground (arith, seek-past bytes n 0 4 (ground arith))
    | inr there ↦ elim (Bool-cases (ltb n 8)) [
      | inl stops ↦ ground (
        arith,
        seek-at bytes n 0 4 (ground arith),
        read_u32-past bytes n 4 b (ground arith) (ground arith),
      )
      | inr goes ↦ ground (
        arith,
        seek-at bytes n 0 4 (ground arith),
        read_u32-at bytes n 4 8 b refl (ground arith),
        seek-at bytes n 8 8 (ground arith),
        read_u32-past bytes n 8 b (ground arith) (omega arith),
      )
    ]
  ]
