-- ===== src/Patplex.antt =====
-- src/patplex.c: the pattern multiplexer, which picks a handler for a request by regular
-- expressions and rewrites the request.
pub mod Offsets
pub mod Match
pub mod Exec
pub mod Config
pub mod Serve
