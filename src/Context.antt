-- ===== src/Context.antt =====
-- The context of a provider call: src/eiraos/application/context_construction.py.
pub mod History
pub mod Builder
pub mod Compacted
pub mod Counted
pub mod Fit
mod Tests
