-- ===== src/Cf.antt =====
-- lib/cf.c, the configuration parser and the children that it declares.
pub mod Child
pub mod Lines
pub mod Parse
