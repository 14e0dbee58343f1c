-- ===== src/State.antt =====
-- internal/state: the durable and the ephemeral records, and the operations on them.
pub mod Account
pub mod History
pub mod Runtime
pub mod Settings
pub mod Store
