-- ===== src/Web.antt =====
-- 网络编程/web/src/web.c: the web server, as it is built with HTTPS defined.
-- `Bytes` has the string functions of C that it calls, `Request` reads requests, `Reply` writes
-- replies, `Serve` is the whole of `doit`.
pub mod Bytes
pub mod Request
pub mod Reply
pub mod Serve
pub mod Uri
pub mod Head
pub mod Endless
mod Tests
