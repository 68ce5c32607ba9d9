-- ===== src/Audit/Checks.antt =====
-- backend/app/audit/checks.py: the deterministic checks.
pub mod Documents
pub mod Keys
pub mod Scan
pub mod TestSearch
pub mod Runner
pub mod Run
pub mod Fitting
pub mod Patterns
pub mod Outcomes
pub mod Measures
pub mod Safe
pub mod Reading
pub mod Total
