-- ===== src/Completion.antt =====
-- The chat completion route: src/eiraos/api/v1/chat.py, with the boundary of
-- src/eiraos/application/chat_execution.py, the failure isolation of
-- src/eiraos/application/provider_failure_isolation.py and the stream of
-- src/eiraos/application/streaming_lifecycle.py.
pub mod Raised
pub mod Program
pub mod Isolation
pub mod Pump
pub mod Verify
pub mod Access
pub mod Verifier
pub mod Preflight
pub mod Prepare
pub mod Decided
pub mod Ordered
pub mod FailPreflight
pub mod Compensated
pub mod Release
pub mod Compensate
pub mod Complete
pub mod Refused
pub mod Stream
pub mod Finalizer
pub mod Generator
pub mod Before
pub mod Terminal
pub mod Resolve
pub mod Asked
mod Tests
mod Trials
