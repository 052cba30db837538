-- ===== src/Cache.antt =====
-- 网络编程/cache.h: the caches that evict what was not used for longest, and what was used least.
mod Tests
pub mod Types
pub mod Members
pub mod Held
pub mod Lru
pub mod Setting
pub mod Frequencies
