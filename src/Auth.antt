-- ===== src/Auth.antt =====
-- internal/auth: who may call what, and the age that a viewer is capped at.
pub mod Access
pub mod Rating
