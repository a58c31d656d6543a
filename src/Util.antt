-- ===== src/Util.antt =====
-- src/util: checked arithmetic, bounds-checked reading, memory and text helpers.
pub mod Checked
pub mod Reader
pub mod Mem
pub mod Str
