-- ===== src/Audit.antt =====
-- backend/app/audit: contracts, budgets, invariant compilation, deterministic checks, verdicts, the
-- evidence graph and the workflow that runs them.
pub mod Contracts
pub mod Budget
pub mod Compiler
pub mod Verifier
pub mod Graph
pub mod Gateway
pub mod Workflow
pub mod Checks
