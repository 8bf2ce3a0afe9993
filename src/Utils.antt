-- ===== src/Utils.antt =====
-- lib/utils.c: the helpers that every program links with.
pub mod Hex
pub mod Base64
pub mod Tokenize
pub mod Btree
