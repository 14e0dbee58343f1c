-- ===== src/State/Settings/Normal.antt =====
-- What `Settings.Normalize` (internal/state/models.go) establishes.
pub mod Options
pub mod Selection
pub mod Fixed
pub mod Selected
pub mod Reached
