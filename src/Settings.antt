-- ===== src/Settings.antt =====
-- internal/settings: the checks on settings and the layers that they are built from.
pub mod Endpoint
pub mod Load
pub mod Stored
pub mod Validate
mod Tests
