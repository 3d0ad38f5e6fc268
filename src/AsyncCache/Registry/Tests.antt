-- ===== src/AsyncCache/Registry/Tests.antt =====
-- asynccache/asynccache.go: NewAsyncCache and Close on concrete intervals.
use utils_go.Base.{ℕ, ◌≡◌, refl, true, false, [], List}
use utils_go.Base.Int.{pos}
use utils_go.Base.GoMap.{lookup}
use utils_go.AsyncCache.Registry.{
  Registry, TickerOptions, returns, panics, and_then, slot_of, new_async_cache, close_async_cache,
}
use utils_go.AsyncCache.Registry.Start.{
  has_returned, IsReady, JoinedAt, is_expire_valid, new_async_cache_returns,
}
use utils_go.AsyncCache.Registry.Stuck.{later_calls, new_async_cache_stuck}

abbrev no_caches : Registry
no_caches = record { refresh_ticker_map = []; expire_ticker_map = [] }

no_caches-IsReady : IsReady no_caches
unfolding slot_of lookup
no_caches-IsReady = record { refresh_ready = λ d. refl; expire_ready = λ d. refl }

abbrev every : ℕ → TickerOptions
every n = record { refresh_duration = pos n; enable_expire = true; expire_duration = pos 60 }

new_async_cache_returns_example :
    (after : Registry) × (new_async_cache (every 5) 1 no_caches ≡ returns after)
    × JoinedAt true (pos 5) 1 [] after.refresh_ticker_map
    × JoinedAt true (pos 60) 1 [] after.expire_ticker_map
    × IsReady after
new_async_cache_returns_example =
    new_async_cache_returns (every 5) 1 no_caches (unfold is_expire_valid in refl) refl
      no_caches-IsReady

new_async_cache_stuck_example :
    (after : Registry) × (new_async_cache (every 0) 1 no_caches ≡ panics after)
    × ((calls : List (TickerOptions × ℕ)) (opt' : TickerOptions) (c' : ℕ)
        → has_returned (
            new_async_cache (record opt' { refresh_duration = pos 0 }) c' (later_calls calls after))
          ≡ false)
new_async_cache_stuck_example =
    new_async_cache_stuck (every 0) 1 no_caches (unfold is_expire_valid in refl) refl
      (unfold slot_of lookup in refl) no_caches-IsReady

-- Of two caches with the same intervals, the one that is not closed stays in both tickers.
open_and_close :
    and_then
      (and_then (new_async_cache (every 5) 1 no_caches) (new_async_cache (every 5) 2))
      (close_async_cache (every 5) 2)
    ≡ new_async_cache (every 5) 1 no_caches
unfolding new_async_cache close_async_cache
open_and_close = refl
