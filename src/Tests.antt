-- ===== src/Tests.antt =====
-- Small concrete cases of the theorems, and runs of the definitions.
pub mod Samples
pub mod Processing
pub mod Retry
pub mod Queue
pub mod Manual
pub mod Picture
pub mod Backfill
pub mod Chapters
pub mod HandOut
pub mod Compliance
pub mod Subtitle
pub mod Stream
pub mod Auth
