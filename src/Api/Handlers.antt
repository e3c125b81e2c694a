-- ===== src/Api/Handlers.antt =====
-- cmd/api/handlers.go, over the stores of internal/data and the hub. `timestamppb.New` keeps the time.
pub mod Accounts
pub mod Streaming
pub mod Chat
pub mod Samples
mod Tests
