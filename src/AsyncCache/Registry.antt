-- ===== src/AsyncCache/Registry.antt =====
-- asynccache/asynccache.go: NewAsyncCache and Close over the two maps of shared tickers, by interval. A call is
-- a sequence of sections under the locks of one or two tickers; here calls come one after the other.
-- time.NewTicker panics on an interval that is not positive, and the section that calls it holds the lock.

pub mod Start
pub mod Stuck
mod Tests
use utils_go.Base.{ℕ, Option, none, some, Bool, true, false, ◌&&◌, ◌||◌, not, if◌then◌else◌, ◌==◌}
use utils_go.Base.Int.{ℤ, pos, int_eq, ltb_ℤ}
use utils_go.Base.GoMap.{GoMap, lookup, insert}
use utils_go.AsyncCache.Ticker.{
  SharedTicker, Lock, new_ticker, register, create_section, close_section, lock_is_free,
}

-- A ticker of one of the maps, and whether a panic has left its lock taken.
pub record Slot : Type 0 where
  pub ticker : SharedTicker
  pub abandoned : Bool

abbrev pub new_slot : Slot
new_slot = record { ticker = new_ticker; abandoned = false }

pub record Registry : Type 0 where
  pub refresh_ticker_map : GoMap ℤ Slot
  pub expire_ticker_map : GoMap ℤ Slot

-- The options that the tickers depend on.
pub record TickerOptions : Type 0 where
  pub refresh_duration : ℤ
  pub enable_expire : Bool
  pub expire_duration : ℤ

-- How a call ends: it returns, panics, or waits for a lock or for room in stopChan.
pub data Ending (A : Type 0) : Type 0 where
  returns panics waits : A → Ending A

abbrev pub and_then : {A : Type 0} → Ending A → (A → Ending A) → Ending A
and_then (returns a) f = f a
and_then (panics a) f = panics a
and_then (waits a) f = waits a

abbrev pub map_ending : {A B : Type 0} → (A → B) → Ending A → Ending B
map_ending f (returns a) = returns (f a)
map_ending f (panics a) = panics (f a)
map_ending f (waits a) = waits (f a)

-- The ticker of an interval, made where there is none.
unfoldable pub slot_of : ℤ → GoMap ℤ Slot → Slot
unfolding lookup
slot_of duration m = elim (lookup duration m) [ none ↦ new_slot | some s ↦ s ]

abbrev pub can_lock : Slot → Bool
can_lock s = not s.abandoned && lock_is_free s.ticker

-- The section of NewAsyncCache on a ticker.
unfoldable pub join : ℤ → ℕ → Slot → Ending Slot
unfolding create_section
join duration c s =
    if can_lock s
    then if s.ticker.started || ltb_ℤ (pos 0) duration
      then returns (record s { ticker = create_section c s.ticker })
      else panics (record s {
        ticker = record (s.ticker) { caches = register c s.ticker.caches; started = true };
        abandoned = true;
      })
    else waits s

-- LoadOrStore, and the section.
unfoldable pub join_in : ℤ → ℕ → GoMap ℤ Slot → Ending (GoMap ℤ Slot)
unfolding join slot_of insert
join_in duration c m = map_ending (λ s. insert duration s m) (join duration c (slot_of duration m))

-- if c.opt.EnableExpire { ... }
unfoldable pub join_expire : TickerOptions → ℕ → Registry → Ending Registry
unfolding join_in
join_expire opt c r =
    if opt.enable_expire
    then if opt.expire_duration == pos 0
      then panics r
      else map_ending (λ m. record r { expire_ticker_map = m })
          (join_in opt.expire_duration c r.expire_ticker_map)
    else returns r

unfoldable pub join_refresh : TickerOptions → ℕ → Registry → Ending Registry
unfolding join_in
join_refresh opt c r =
    map_ending (λ m. record r { refresh_ticker_map = m })
      (join_in opt.refresh_duration c r.refresh_ticker_map)

unfoldable pub new_async_cache : TickerOptions → ℕ → Registry → Ending Registry
unfolding join_expire join_refresh
new_async_cache opt c r = and_then (join_expire opt c r) (join_refresh opt c)

-- Where the section has left the lock, it is done.
unfoldable pub left : Slot → SharedTicker → Ending Slot
left s t =
    if lock_is_free t then returns (record s { ticker = t }) else waits (record s { ticker = t })

-- The section of Close on a ticker that may be missing: a nil interface is asserted to be a ticker. A full
-- stopChan keeps the section in its send.
unfoldable pub leave : ℕ → Slot → Ending Slot
unfolding close_section left
leave c s = if can_lock s then left s (close_section c s.ticker) else waits s

unfoldable pub leave_in : ℤ → ℕ → GoMap ℤ Slot → Ending (GoMap ℤ Slot)
unfolding leave lookup insert
leave_in duration c m = elim (lookup duration m) [
  | none ↦ panics m
  | some s ↦ map_ending (λ s'. insert duration s' m) (leave c s)
]

unfoldable pub leave_expire : TickerOptions → ℕ → Registry → Ending Registry
unfolding leave_in
leave_expire opt c r =
    if opt.enable_expire
    then map_ending (λ m. record r { expire_ticker_map = m })
        (leave_in opt.expire_duration c r.expire_ticker_map)
    else returns r

unfoldable pub close_async_cache : TickerOptions → ℕ → Registry → Ending Registry
unfolding leave_in leave_expire
close_async_cache opt c r =
    and_then
      (map_ending (λ m. record r { refresh_ticker_map = m })
        (leave_in opt.refresh_duration c r.refresh_ticker_map))
      (leave_expire opt c)
