-- ===== src/Core.antt =====
-- core/router.go, and the registry of message types that proto_generate.go writes.
pub mod Errors
pub mod Registry
pub mod Generator
pub mod Router
pub mod Dispatch
pub mod Validation
pub mod Requests
pub mod GeneratorTests
pub mod Tests
