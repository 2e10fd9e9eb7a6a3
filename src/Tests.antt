-- ===== src/Tests.antt =====
-- The theorems at concrete inputs, and runs of the code.
pub mod Parsing
pub mod Sessions
pub mod Requests
pub mod Routes
pub mod Http
pub mod Answers
pub mod Buffers
pub mod Servers
pub mod Stream
pub mod Examples
pub mod Tokens
