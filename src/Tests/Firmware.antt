-- ===== src/Tests/Firmware.antt =====
-- The parsers of src/fw on buffers of two entries.
use tunix_boot.Prelude.{ℕ, some, List, ◌++◌, arith}
use tunix_boot.Util.Reader.Scalar.{le_bytes}
use tunix_boot.Memory.Map.Finalize.{IsFinal}
use tunix_boot.Firmware.E820.{e820_parse}
use tunix_boot.Firmware.E820.Claims.{claims, e820_parse-IsFinal}
use tunix_boot.Firmware.UefiMemory.{after_exit, uefi_memory_parse}
use tunix_boot.Firmware.UefiMemory.Claims.{uefi_claims, uefi_memory_parse-IsFinal}

abbrev e820_buffer : List ℕ
e820_buffer =
    le_bytes 8 0x1000
    ++ le_bytes 8 0x9000
    ++ le_bytes 4 1
    ++ le_bytes 4 1
    ++ le_bytes 8 0x2000
    ++ le_bytes 8 0x1000
    ++ le_bytes 4 2
    ++ le_bytes 4 1

e820_parse-IsFinal_example : IsFinal (claims e820_buffer 2) (e820_parse (some e820_buffer) 2).1
e820_parse-IsFinal_example =
    e820_parse-IsFinal e820_buffer 2 (omega arith) (omega arith) (omega arith)

-- Two descriptors at a stride of 48 bytes, and 8 bytes that are no descriptor.
abbrev descriptor : ℕ → ℕ → ℕ → List ℕ
descriptor type physical pages =
    le_bytes 8 type
    ++ le_bytes 8 physical
    ++ le_bytes 8 0
    ++ le_bytes 8 pages
    ++ le_bytes 8 0
    ++ le_bytes 8 0xFF

abbrev uefi_buffer : List ℕ
uefi_buffer = descriptor 7 0x1000 9 ++ descriptor 4 0x2000 1 ++ le_bytes 8 1

uefi_memory_parse-IsFinal_example :
    IsFinal
      (uefi_claims after_exit uefi_buffer 104 48)
      (uefi_memory_parse (some uefi_buffer) 104 48 after_exit).1
uefi_memory_parse-IsFinal_example =
    uefi_memory_parse-IsFinal after_exit uefi_buffer 104 48 (omega arith) (omega arith)
      (omega arith) (omega arith) (omega arith) (omega arith)
