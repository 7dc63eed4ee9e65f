-- ===== src/Service.antt =====
-- pkg/apis/v1alpha1/server.go: the handlers.
pub mod Monad
pub mod Types
pub mod Projects
pub mod Scopes
pub mod Calls
pub mod Invariant
pub mod Auth
mod Tests
