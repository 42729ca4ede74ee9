-- ===== src/Proxy/Agree.antt =====
-- The signature that the client of `src/proxy/mod.rs` makes is one that the verifier of
-- `src/server/s3_api.rs` accepts.
pub mod Header
pub mod Request
pub mod Signing
pub mod Accepted
