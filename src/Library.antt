-- ===== src/Library.antt =====
-- internal/library: the library's settings.
pub mod Window
