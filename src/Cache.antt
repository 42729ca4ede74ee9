-- ===== src/Cache.antt =====
-- The caching subsystem, `src/cache`.
pub mod Keys
pub mod Metadata
pub mod Storage
pub mod Chunks
pub mod Coordinator
pub mod Drop
pub mod Read
pub mod Write
pub mod Policy
pub mod Copy
pub mod Flight
