-- ===== src/Service.antt =====
-- The commands' work on the state files, the registration service and the backend, as calls that
-- change a machine and may end in an error: cmd/account_helpers.go, cmd/access_helpers.go,
-- cmd/backend_helpers.go and cmd/runtime_helpers.go.
pub mod Action
pub mod Host
pub mod Frame
pub mod Running
pub mod Resolve
pub mod Starting
pub mod Waiting
pub mod Sample
mod Tests
pub mod Import
pub mod Imported
pub mod Registry
pub mod Access
pub mod Registration
pub mod Backend
