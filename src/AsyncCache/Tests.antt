-- ===== src/AsyncCache/Tests.antt =====
-- asynccache/: the theorems at concrete caches and tickers.

use utils_go.Base.{
  ℕ, ◌+◌, ◌≡◌, ◌≢◌, ◌↔◌, refl, ap, ltb, Option, none, some, true, false, [], ◌∷◌, arith, eq_of_some,
}
use utils_go.Base.Text.{Text, text, text_beq, text_eq}
use utils_go.Base.GoMap.{Distinct, lookup, insert, update_all}
use utils_go.Base.Outcome.{ok}
use utils_go.AsyncCache.Entry.{Any, Entry, touch, store, store_value}
use utils_go.AsyncCache.Cache.{
  delete_handler, Options, Fetched, AsyncCache, Group, set_default, get_fill, get, get_or_set,
  deletions, expire_entry, expire, changes, refresh_entry, refresh_all, refresh,
}
use utils_go.AsyncCache.Reads.{Alone, settled, get-get_or_set, get_or_set_joined}
use utils_go.AsyncCache.Refresh.{refreshed, get-refresh, Typed}
use utils_go.AsyncCache.Calls.{
  set_default_call, get_call, expire_tick, refresh_tick, idle, step, run, life, life-step,
}
use utils_go.AsyncCache.Expiry.{idle_key_expires, used_key_survives}
use utils_go.AsyncCache.Panics.{run_ok}
use utils_go.AsyncCache.Ticker.{
  Lock, SharedTicker, new_ticker, create, close, fire, enter, leave, stop, create_section,
  close_section, finish_close, fire_section, enter_section, stop_section, act, loops, is_empty,
  contains,
}
use utils_go.AsyncCache.Ticker
use utils_go.AsyncCache.Ticker.Balance.{
  Reach, here, next, IsBalanced, Reach-IsBalanced, loops_of_caches,
}
use utils_go.AsyncCache.Ticker.Stuck.{
  Stuck, Stuck-iff, close_create_close, serves_one, close_may_deadlock,
}
use utils_go.AsyncCache.Ticker.SecondClose.{stops, CanStop, second_close_stops_ticker}

-- Values of one dynamic type.
abbrev value : ℕ → Option (Any ℕ)
value n = some (record { dyn_type = 1; payload = n })

abbrev opts : Options ℕ ℕ
opts = record {
  fetcher = λ k. (value 5, none);
  has_error_handler = true;
  has_change_handler = true;
  has_delete_handler = true;
  is_same = none;
}

abbrev failing : Options ℕ ℕ
failing = record opts { fetcher = λ k. (none, some 7) }

abbrev a : Text
a = text "a"

abbrev b : Text
b = text "b"

abbrev entry_of : ℕ → ℕ → Entry ℕ ℕ
entry_of n age = record { val = value n; expire = age; err = some none }

-- A cache with one entry.
abbrev one : AsyncCache ℕ ℕ
one = record { items = (a, entry_of 3 0) ∷ []; events = [] }

nothing : (g : AsyncCache ℕ ℕ → AsyncCache ℕ ℕ × Fetched ℕ ℕ) → none ≢ some g
nothing g h = cc

-- The singleflight group when nothing is in flight.
abbrev quiet : Group (AsyncCache ℕ ℕ) (Fetched ℕ ℕ)
quiet = record {
  in_flight = λ k. none;
  run = λ k f s. f s;
  run_alone = λ k f s h. refl;
  run_joined = λ k g f s h. absurd (nothing g h);
}

abbrev quiet_alone : Alone quiet
quiet_alone k = refl

-- The options of a fetch that fails with a value.
abbrev half : Options ℕ ℕ
half = record opts { fetcher = λ k. (value 6, some 7) }

-- The function of a Get of `b` that is in flight.
abbrev flying : AsyncCache ℕ ℕ → AsyncCache ℕ ℕ × Fetched ℕ ℕ
flying = get_fill half b

some-flying : some flying ≢ none
some-flying h = cc

-- The group when that Get is in flight.
abbrev busy : Group (AsyncCache ℕ ℕ) (Fetched ℕ ℕ)
busy = record {
  in_flight = λ k. some flying;
  run = λ k f s. flying s;
  run_alone = λ k f s h. absurd (some-flying h);
  run_joined = λ k g f s h. ap (λ r. r s) (eq_of_some flying g h);
}

-- b is used and a is not: the second tick deletes a.
idle_key_expires_example : lookup a ((b, entry_of 5 1) ∷ []) ≡ none
unfolding run step get get_fill expire expire_entry deletions lookup insert update_all text_beq
idle_key_expires_example =
    idle_key_expires quiet quiet_alone a
      (expire_tick opts ∷ get_call opts b ∷ expire_tick opts ∷ []) one
      (record { items = (b, entry_of 5 1) ∷ []; events = delete_handler a (entry_of 3 1) ∷ [] })
      (refl, tt) (refl, (refl, (refl, tt))) (omega arith) refl

used_key_survives_example : lookup a ((a, entry_of 3 1) ∷ (b, entry_of 9 0) ∷ []) ≢ none
unfolding run step get touch set_default expire expire_entry deletions lookup insert update_all
    text_beq
used_key_survives_example =
    used_key_survives quiet quiet_alone a (get_call opts a)
      (expire_tick opts ∷ set_default_call b (value 9) ∷ []) one
      (record { items = (a, entry_of 3 1) ∷ (b, entry_of 9 0) ∷ []; events = [] }) (refl, tt) refl
      (refl, (refl, tt)) (omega arith) refl

life-step_example :
    (life a (record one { items = (a, entry_of 3 1) ∷ [] }) ≡ idle)
    × Distinct ((a, entry_of 3 1) ∷ [])
unfolding step expire expire_entry deletions lookup update_all text_beq
life-step_example =
    life-step quiet quiet_alone (expire_tick opts) a one
      (record one { items = (a, entry_of 3 1) ∷ [] }) (refl, tt) refl

get-get_or_set_example :
    ((get quiet opts b (get_or_set quiet failing b (value 8) one).0).1
      ≡ ((get_or_set quiet failing b (value 8) one).1, none))
    × ((get_or_set quiet failing b (value 8) one).1
        ≡ settled (lookup b one.items) (none, some 7) (value 8))
get-get_or_set_example = get-get_or_set quiet failing opts b (value 8) one quiet_alone

get_or_set_joined_example :
    ((get_or_set busy opts b (value 8) one).1 ≡ value 6)
    × ((get busy failing b (get_or_set busy opts b (value 8) one).0).1 ≡ (value 6, some 7))
unfolding lookup text_beq
get_or_set_joined_example = get_or_set_joined busy opts half failing b (value 8) one refl refl

get-refresh_example :
    (get quiet opts a (record one { items = (a, entry_of 5 0) ∷ [] })).1
    ≡ refreshed (entry_of 3 0) (value 5, none)
unfolding refresh refresh_all refresh_entry store store_value changes lookup text_beq
get-refresh_example =
    get-refresh opts quiet opts a one (record one { items = (a, entry_of 5 0) ∷ [] }) (entry_of 3 0)
      refl refl

run_ok_example :
    (c' : AsyncCache ℕ ℕ) × (run quiet (get_call opts b ∷ refresh_tick opts ∷ []) one ≡ ok c')
    × Typed 1 c'.items
run_ok_example =
    run_ok quiet quiet_alone 1 (get_call opts b ∷ refresh_tick opts ∷ []) one
      ((λ k. refl), ((λ k. refl), tt)) (refl, tt)

-- The first cache is created, the ticker fires, and the caches are refreshed.
abbrev refreshing : SharedTicker
refreshing = record {
  started = true;
  tokens = 0;
  caches = 4 ∷ [];
  selecting = 0;
  waiting = 0;
  lock = Lock.ticking;
}

refreshing-Reach : Reach refreshing
unfolding act create_section fire_section enter_section
refreshing-Reach = next enter (next fire (next (create 4) here refl refl) refl refl) refl refl

Reach-IsBalanced_example : IsBalanced refreshing
Reach-IsBalanced_example = Reach-IsBalanced refreshing-Reach

loops_of_caches_example : loops refreshing ≡ 1
loops_of_caches_example = loops_of_caches refreshing-Reach (λ h. cc) refl

-- A Close that sends while both loops wait for its lock.
abbrev deadlocked : SharedTicker
deadlocked = record {
  started = true;
  tokens = 1;
  caches = [];
  selecting = 0;
  waiting = 2;
  lock = Lock.sending;
}

Stuck-iff_example : Stuck deadlocked ↔ (
    (deadlocked.lock ≡ Lock.sending)
    × (deadlocked.selecting ≡ 0)
    × (ltb deadlocked.tokens 1 ≡ false))
Stuck-iff_example = Stuck-iff deadlocked

close_may_deadlock_example :
    (t : SharedTicker) × (Ticker.run (close_create_close 1 2) (serves_one 1) ≡ some t) × Stuck t
close_may_deadlock_example = close_may_deadlock 1 2

-- The ticker of two caches, without a loop.
abbrev stopped : SharedTicker
stopped = record {
  started = true;
  tokens = 0;
  caches = 3 ∷ 2 ∷ [];
  selecting = 0;
  waiting = 0;
  lock = Lock.free;
}

-- A cache was created and closed, and the loop has returned.
closed_once : Reach new_ticker
unfolding act
closed_once = next stop (next (close 1) (next (create 1) here refl refl) refl refl) refl refl

second_close_stops_ticker_example :
    (contains 2 stopped.caches ≡ true)
    × (stopped.started ≡ true)
    × (stops (stop ∷ create 3 ∷ []) + loops stopped ≡ 1)
    × CanStop stopped
unfolding Ticker.run act
second_close_stops_ticker_example =
    second_close_stops_ticker closed_once refl refl refl 1 2 (stop ∷ create 3 ∷ []) stopped
      (refl, (refl, tt)) refl
