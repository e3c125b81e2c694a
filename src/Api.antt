-- ===== src/Api.antt =====
-- cmd/api: the interceptors, the handlers and the server's configuration.
pub mod Html
pub mod Requests
pub mod Interceptors
pub mod Stores
pub mod Handlers
pub mod Chats
pub mod Turns
pub mod Service
pub mod Server
pub mod Validation
pub mod Config
pub mod Process
pub mod Samples
mod Tests
