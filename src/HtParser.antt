-- ===== src/HtParser.antt =====
-- src/htparser.c: the HTTP server proper.
pub mod Trimx
pub mod Request
pub mod Chunks
pub mod Serve
pub mod Connid
