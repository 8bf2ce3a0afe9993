-- ===== src/Fcgi.antt =====
-- src/callfcgi.c, the client of FastCGI servers.
pub mod Env
pub mod Outplex
pub mod Params
pub mod Record
pub mod Request
