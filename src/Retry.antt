-- ===== src/Retry.antt =====
-- internal/retry: the pipeline heals itself. A step whose retry is due is claimed and its trigger
-- sent again; one silent past its timeout is taken for a failed run.
pub mod Trigger
pub mod Claim
pub mod Dispatch
pub mod Reencode
pub mod Manual
pub mod Failed
pub mod Sweep
pub mod Queue
pub mod Invariant
pub mod Holds
pub mod History
