-- ===== src/Chapters.antt =====
-- internal/chapters: a title's chapters, the reads that found them, and what the catalog keeps of each
-- read.
pub mod Title
pub mod Read
pub mod Take
pub mod Marks
pub mod Report
pub mod Record
pub mod FromRecord
pub mod Decisions
pub mod Waits
pub mod HandOut
pub mod Steps
