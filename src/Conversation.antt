-- ===== src/Conversation.antt =====
-- The conversation aggregate and its lifecycle (src/eiraos/domains/conversations/state.py), and its
-- mapping to the table row (src/eiraos/application/conversation_state.py).
mod State
mod Row
unfoldable pub use State.*
unfoldable pub use Row.*
pub mod Validity
pub mod Lifecycle
pub mod Mapping
mod Tests
