-- ===== src/Store.antt =====
-- auth/storage: the records of the OAuth store and the operations on them.
pub mod Records
pub mod Profile
pub mod Rows
pub mod File
pub mod Codes
pub mod Tokens
pub mod States
pub mod Sessions
pub mod RateLimits
pub mod History
pub mod Tests
