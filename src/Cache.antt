-- ===== src/Cache.antt =====
-- polaris/cache: the maps that the SDK's caches are made of.
pub mod LruMap
pub mod RcuMap
pub mod RcuTime
mod Tests
