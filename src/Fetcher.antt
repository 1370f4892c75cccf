-- ===== src/Fetcher.antt =====
-- app/collectors/fetcher.py: the fetcher and what it is built from.
pub mod PageAnalyzer
pub mod RateLimiter
pub mod HttpCache
pub mod Result
pub mod Static
pub mod Hybrid
