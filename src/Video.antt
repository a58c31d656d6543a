-- ===== src/Video.antt =====
-- src/video.
pub mod Framebuffer
