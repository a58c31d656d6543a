-- ===== src/Lib.antt =====
-- Verification of the boot loader.
--
-- The loader asks the firmware for the memory map, reads partitions, file systems and the kernel
-- from a block device, places the kernel in memory that nobody claims, and hands over. This
-- library models the parts below those steps and what they rely on.
--
-- Parts and files:
--   Prelude          shared names, lists, tests and words over the native numbers; Prelude/Flow is
--                    a loop round that goes on or leaves by `break`, Prelude/Act
--                    an action on a state that may fail, Prelude/Branches case splits on a test
--   Util/Checked     src/util/checked.h
--   Util/Reader      src/util/reader.c: the cursor every parser reads through
--   Util/Mem         src/util/mem.c on memory as a function of the address
--   Memory/Map       src/memory/map.c: memory_map_add, _finalize, _find, _find_free, _find_free_high
--   Memory/Arena     src/memory/arena.c: the bump allocator
--   Memory/Paging    src/memory/paging.c: page tables as words of memory
--   Block/Device     src/block/block.c: byte reads over a sector device
--   Block/Partition  src/block/partition.c: MBR, GPT, and the device of one partition
--   Util/Str         src/util/str.c: strings as lists of bytes
--   Elf              src/elf/elf.c: elf_parse, elf_load, elf_entry_point
--   Firmware/E820    src/fw/bios/e820.c: the BIOS memory map
--   Firmware/UefiMemory  src/fw/uefi/memory.c: the UEFI memory map
--   Fs/Fat           src/fs/fat.c: the volume and its cluster chains; Fs/Fat/Name the names of an
--                    entry, Fs/Fat/Files opening and reading. What a chain holds is stated
--                    without the cache and the walk in Fs/Fat/Entry, Chain and Content
--   Pci              src/pci/pci.c: the walk over the buses
--   Acpi             src/acpi/acpi.c: the root pointer, the tables it leads to, and the processors;
--                    Prelude/Capped is a list with room for so many and a mark for what is left out
--   Video/Framebuffer  src/video/framebuffer.c on memory as a function of the address
--   Terminal         src/terminal/terminal.c: the cursor and what it draws
--   Protocol         src/protocol/protocol.c: the requests of the kernel and the answers, which are
--                    placed in an arena of Memory/Arena
--   Config           src/config/config.c: the configuration file
--   Tests            concrete runs
-- The readers of Util/Reader serve Block/Partition, Elf and Firmware, which fills the map of
-- Memory/Map; Config reads through Util/Str. The partitions are devices again, so
-- Block/Partition/View applies the theorems of Block/Device to them. Memory/Map and Memory/Arena
-- use Util/Checked only; Memory/Paging takes its tables from Memory/Arena.
--
-- State: a C structure is a record, passed in and returned; an out parameter with a `bool` result
-- is an Option, or a pair where the structure changes even when the call fails. A pointer that
-- may be NULL for a reason of the caller's is an Option where the code tests it; the tests that only
-- guard against a wrong call, as those of `elf_parse`, `elf_load` and `block_read` for an argument
-- that is NULL, are left out. Arrays with a count are lists. Words keep
-- their wrap-around (`add64`, `mul64`, `% u64_mod`), so that a theorem which needs a range says so.
-- `size_t` and `uintptr_t` have 64 bits, as on the only target, x86_64.
--
-- Loops are structural recursion on the list or the count that the code walks; where the code
-- counts down by chunks, the recursion is on the number of rounds left, bounded by the count
-- itself. For each of these the fuel is the number of bytes, pages, sectors, clusters or buses
-- that are left, and every round uses up at least one.
--
-- A backend of a block device is a field of the device: a function of the sector and the count.
-- What it leaves in the buffer when it fails is another, `leftover`, of which nothing is assumed.
-- `IsHonest` says that what it returns are the disk's bytes, `IsReliable` that it serves what lies
-- on the disk. The read callback of Elf is such a function too, and may write before it fails;
-- Elf/Chunks has its hypotheses. The library does not model: assembly, port I/O, firmware calls
-- and single instructions; the font's glyphs, which are data; and, so far, ext2, the ATA driver,
-- the log, the descriptor tables, the choice of a video mode and the boot sequence.
pub mod Acpi
pub mod Prelude
pub mod Util
pub mod Memory
pub mod Block
pub mod Config
pub mod Elf
pub mod Firmware
pub mod Fs
pub mod Pci
pub mod Protocol
pub mod Terminal
pub mod Tests
pub mod Video
