-- ===== src/Picture.antt =====
-- internal/picture: the picture area of a title, as the analyzer reports it and the catalog keeps it.
pub mod Report
pub mod Window
pub mod Settings
pub mod Backfill
pub mod Candidates
pub mod Claim
pub mod Area
pub mod Record
