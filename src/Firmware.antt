-- ===== src/Firmware.antt =====
-- src/fw: what turns the firmware's own description of memory into the map of Memory/Map.
pub mod E820
pub mod UefiMemory
