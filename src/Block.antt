-- ===== src/Block.antt =====
-- src/block: one device addressed in sectors, and the partitions on it.
pub mod Device
pub mod Partition
