-- ===== src/AsyncCache.antt =====
-- asynccache/: the cache with background refresh and expiry, and its shared tickers.
pub mod Entry
pub mod Cache
pub mod Reads
pub mod Refresh
pub mod Calls
pub mod Expiry
pub mod Panics
pub mod Ticker
pub mod Registry
pub mod Tests
