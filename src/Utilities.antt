-- ===== src/Utilities.antt =====
-- app/utilities/performance.py: the bounded cache, the two deduplicators and the caching decorator.
pub mod LruCache
pub mod UrlDedup
pub mod ContentDedup
pub mod CachedParse
