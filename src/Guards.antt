-- ===== src/Guards.antt =====
-- backend/app/guards: generated guards, their approval and their execution.
pub mod Contracts
pub mod Service
