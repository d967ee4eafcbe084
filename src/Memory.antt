-- ===== src/Memory.antt =====
-- The durable memory: src/eiraos/application/memory_runtime.py over
-- src/eiraos/domains/memory/models.py, with the classes of src/eiraos/application/memory.py.
pub mod Records
pub mod Durable
pub mod Isolation
pub mod Provenance
pub mod Traced
mod Tests
