-- ===== src/Compliance.antt =====
-- internal/compliance: the report of the titles that break a rule.
pub mod Order
