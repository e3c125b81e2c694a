-- ===== src/Data.antt =====
-- internal/data: the documents of the database and the two stores.
pub mod Models
pub mod Bson
pub mod Users
pub mod Messages
pub mod Samples
mod Tests
