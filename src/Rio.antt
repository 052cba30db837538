-- ===== src/Rio.antt =====
-- 网络编程/web/src/csapp.c: the Rio package, robust input and output.
pub mod Types
pub mod Io
pub mod Wrappers
pub mod Stream
mod Tests
