-- ===== src/Tests.antt =====
-- Sample data, runs of the definitions on it, and the theorems applied to it.
mod Samples
mod Budgets
mod Verdicts
mod Compilations
mod Approvals
mod Walks
mod Snapshots
mod Graphs
mod Calls
mod Chunks
mod Runs
mod Checks
mod Incidents
