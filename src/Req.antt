-- ===== src/Req.antt =====
-- lib/req.c: requests and responses. `Head` has the structure with its headers.
pub mod Head
pub mod Parse
pub mod Write
pub mod Unquote
pub mod Wire
