-- ===== src/Firmware/UefiMemory.antt =====
-- src/fw/uefi/memory.c.
pub mod Claims
use tunix_boot.Prelude.{
  ℕ, zero, suc, Bool, true, false, Option, none, some, List, drop, ltb, leb, ◌==◌, if◌then◌else◌,
}
use tunix_boot.Prelude.Word.{add64}
use tunix_boot.Util.Checked.{checked_mul}
use tunix_boot.Util.Reader
use tunix_boot.Util.Reader.{Read, ◌>>=◌, ◌>>◌, pure, seek, read_u32, read_u64}
use tunix_boot.Memory.Map.{
  MemoryKind, usable, bootloader_reclaimable, acpi_reclaimable, acpi_nvs, reserved, bad, MemoryMap,
  clear, add,
}
use tunix_boot.Firmware.E820.{finish}

-- `enum uefi_phase`.
pub data UefiPhase : Type 0 where
  before_exit after_exit : UefiPhase

-- What the firmware's own code and heap are, by the phase.
abbrev pub boot_services : UefiPhase → MemoryKind
boot_services before_exit = reserved
boot_services after_exit = usable

unfoldable pub uefi_memory_kind : ℕ → UefiPhase → MemoryKind
uefi_memory_kind type phase =
    if type == 7
    then usable
    else if type == 1
    then bootloader_reclaimable
    else if type == 2
    then bootloader_reclaimable
    else if type == 3
    then boot_services phase
    else if type == 4
    then boot_services phase
    else if type == 9
    then acpi_reclaimable
    else if type == 10
    then acpi_nvs
    else if type == 8
    then bad
    else reserved

-- The fields of one descriptor.
pub record Descriptor : Type 0 where
  pub type : ℕ
  pub physical : ℕ
  pub pages : ℕ

unfoldable pub descriptor_fields : Read Descriptor
descriptor_fields = do
  type ← read_u32
  seek 8
  physical ← read_u64
  seek 24
  pages ← read_u64
  pure (record { type = type; physical = physical; pages = pages })

-- What the loop does with a descriptor.
unfoldable pub take_descriptor : UefiPhase → MemoryMap → Descriptor → MemoryMap
take_descriptor phase out d = elim (checked_mul d.pages 4096) [
  | none ↦ out
  | some length ↦ (add out d.physical length (uefi_memory_kind d.type phase)).1
]

-- The loop; the offset grows in every round, so `fuel` rounds are enough when it is the number of
-- bytes that are left.
unfoldable pub uefi_descriptors : ℕ → List ℕ → ℕ → ℕ → UefiPhase → ℕ → MemoryMap → MemoryMap
uefi_descriptors zero base total_bytes descriptor_bytes phase offset out = out
uefi_descriptors (suc fuel) base total_bytes descriptor_bytes phase offset out =
    elim (leb (add64 offset descriptor_bytes) total_bytes) [
      | false ↦ out
      | true ↦ elim (descriptor_fields (Reader.init (some (drop offset base)) descriptor_bytes)).0 [
        | none ↦ out
        | some d ↦
            uefi_descriptors fuel base total_bytes descriptor_bytes phase
              (add64 offset descriptor_bytes) (take_descriptor phase out d)
      ]
    ]

unfoldable pub uefi_memory_parse : Option (List ℕ) → ℕ → ℕ → UefiPhase → Bool × MemoryMap
uefi_memory_parse none total_bytes descriptor_bytes phase = (false, clear)
uefi_memory_parse (some descriptors) total_bytes descriptor_bytes phase =
    if total_bytes == 0
    then (false, clear)
    else if ltb descriptor_bytes 40
    then (false, clear)
    else if ltb 1024 descriptor_bytes
    then (false, clear)
    else finish
        (uefi_descriptors total_bytes descriptors total_bytes descriptor_bytes phase 0 clear)
