-- ===== src/Proto.antt =====
-- proto/proto.go: HTTP/1 payloads as bytes.
pub mod Headers
pub mod Chunked
pub mod Payload
pub mod Title
pub mod Path
pub mod Examples
