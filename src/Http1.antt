-- ===== src/Http1.antt =====
-- The package http1: the head parser, the framing table and the body reader.
pub mod Errors
pub mod Chars
pub mod Framing
pub mod Conn
pub mod Reader
pub mod Lines
pub mod Chunks
pub mod Body
pub mod Simd
pub mod Parser
