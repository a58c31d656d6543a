-- ===== src/Memory.antt =====
-- src/memory: the memory map, the arena and the page tables.
pub mod Map
pub mod Arena
pub mod Paging
