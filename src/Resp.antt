-- ===== src/Resp.antt =====
-- lib/resp.c: the text of responses.
pub mod Quote
pub mod Status
