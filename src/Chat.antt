-- ===== src/Chat.antt =====
-- The durable record of a chat execution: src/eiraos/application/chat_persistence.py, with the
-- failure policy of src/eiraos/application/chat_recovery.py and the rows of
-- src/eiraos/domains/conversations/models.py, src/eiraos/domains/usage/models.py and
-- src/eiraos/domains/governance/models.py.
pub mod Failure
pub mod Database
pub mod Session
pub mod Exchange
pub mod Prepare
pub mod Accounting
pub mod Recover
pub mod Finalize
pub mod Final
pub mod Raises
pub mod Writes
pub mod Once
pub mod Atomic
pub mod Later
pub mod Attempt
pub mod Retry
pub mod Prepared
mod Tests
