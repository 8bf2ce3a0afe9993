-- ===== src/Dirplex.antt =====
-- src/dirplex/, the directory multiplexer: what it serves for a path.
pub mod Match
pub mod Walk
pub mod Inside
pub mod Served
pub mod Reply
pub mod Ends
pub mod Handle
pub mod Visible
