-- ===== src/Rag/Safety.antt =====
-- backend/app/rag/safety.py: containment in the workspace, and the bounded walk of a repository.
pub mod Boundary
pub mod Denial
pub mod Walk
pub mod Limits
pub mod Accounting
