-- ===== src/Idempotency.antt =====
-- The idempotency service with lease fencing (src/eiraos/core/idempotency.py) over the table of
-- src/eiraos/domains/idempotency/models.py. Instants are numbers of microseconds. What other
-- processes do between two statements of one call is a parameter, so a statement about `begin`
-- speaks of every interleaving at the database.
pub mod Record
mod Key
mod Begin
mod Lease
mod Ladder
pub mod Grant
pub mod Owned
pub mod Fence
pub mod Cycle
pub mod Cleanup
mod Tests
pub mod Unique
pub use Record.*
pub use Key.*
pub use Begin.*
pub use Lease.*
