-- ===== src/Server.antt =====
-- `src/server`: the range header, the signature check, the handlers and the middleware.
pub mod Range
pub mod Outcome
pub mod S3Api
pub mod Handlers
pub mod Middleware
