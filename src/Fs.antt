-- ===== src/Fs.antt =====
-- src/fs: the file systems, read only.
pub mod Fat
