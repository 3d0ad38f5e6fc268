-- ===== src/AsyncCache/Registry/Stuck.antt =====
-- asynccache/asynccache.go: a NewAsyncCache with a refresh interval that is not positive panics with the lock
-- of that interval's ticker taken.
use utils_go.Base.{
  ℕ, ◌≡◌, refl, ap, ◌∙◌, true, false, inl, inr, List, [], ◌∷◌, Bool-cases, ◌==◌, beq_refl,
}
use utils_go.Base.Int.{ℤ, pos, int_eq, ltb_ℤ}
use utils_go.Base.GoMap.{GoMap, insert}
use utils_go.AsyncCache.Ticker.{register}
use utils_go.AsyncCache.Registry.{
  Slot, Registry, TickerOptions, Ending, returns, panics, waits, and_then, map_ending, slot_of,
  can_lock, join, join_in, join_expire, join_refresh, new_async_cache,
}
use utils_go.AsyncCache.Registry.Start.{
  state_of, has_returned, IsReady, is_expire_valid, slot_of-insert, join_abandoned, expire_joined,
}

-- Calls of NewAsyncCache, each with its options and its cache, whether they return or not.
unfoldable pub later_calls : List (TickerOptions × ℕ) → Registry → Registry
later_calls [] r = r
later_calls ((opt, c) ∷ calls) r = later_calls calls (state_of (new_async_cache opt c r))

abbrev IsAbandoned : ℤ → Registry → Type 0
IsAbandoned d r = (slot_of d r.refresh_ticker_map).abandoned ≡ true

state_of-map :
    {A B : Type 0} (f : A → B) (e : Ending A) → state_of (map_ending f e) ≡ f (state_of e)
state_of-map f (returns a) = refl
state_of-map f (panics a) = refl
state_of-map f (waits a) = refl

has_returned-map :
    {A B : Type 0} (f : A → B) (e : Ending A) → has_returned (map_ending f e) ≡ has_returned e
has_returned-map f (returns a) = refl
has_returned-map f (panics a) = refl
has_returned-map f (waits a) = refl

join_keeps_abandoned :
    (d : ℤ) (c : ℕ) (s : Slot) → s.abandoned ≡ true → (state_of (join d c s)).abandoned ≡ true
join_keeps_abandoned d c s h = rw (join_abandoned d c s h) h

join_in_keeps_abandoned :
    (d read : ℤ) (c : ℕ) (m : GoMap ℤ Slot)
    → (slot_of read m).abandoned ≡ true
    → (slot_of read (state_of (join_in d c m))).abandoned ≡ true
unfolding join_in
join_in_keeps_abandoned d read c m h =
    rw
      (
        state_of-map (λ s. insert d s m) (join d c (slot_of d m)),
        slot_of-insert d read (state_of (join d c (slot_of d m))) m,
      )
      (elim (Bool-cases (d == read)) [
        | inl same ↦
            let e = (int_eq.equal_iff d read).0 same in
            rw same (join_keeps_abandoned d c (slot_of d m) (rw e h))
        | inr other ↦ rw other h
      ])

join_expire_refresh_map :
    (opt : TickerOptions) (c : ℕ) (r : Registry)
    → (state_of (join_expire opt c r)).refresh_ticker_map ≡ r.refresh_ticker_map
unfolding join_expire
join_expire_refresh_map opt c r = elim (Bool-cases opt.enable_expire) [
  | inr off ↦ rw off refl
  | inl on ↦ elim (Bool-cases (opt.expire_duration == pos 0)) [
    | inl never ↦ rw (on, never) refl
    | inr some_time ↦
        rw (on, some_time)
          (ap (λ q. q.refresh_ticker_map)
            (state_of-map (λ m. record r { expire_ticker_map = m })
              (join_in opt.expire_duration c r.expire_ticker_map)))
  ]
]

and_then_keeps :
    (opt : TickerOptions) (c : ℕ) (d : ℤ) (e : Ending Registry)
    → IsAbandoned d (state_of e)
    → IsAbandoned d (state_of (and_then e (join_refresh opt c)))
unfolding join_refresh
and_then_keeps opt c d (returns r) h =
    rw
      (state_of-map (λ m. record r { refresh_ticker_map = m })
        (join_in opt.refresh_duration c r.refresh_ticker_map))
      (join_in_keeps_abandoned opt.refresh_duration d c r.refresh_ticker_map h)
and_then_keeps opt c d (panics r) h = h
and_then_keeps opt c d (waits r) h = h

new_keeps_IsAbandoned :
    (opt : TickerOptions) (c : ℕ) (d : ℤ) (r : Registry)
    → IsAbandoned d r
    → IsAbandoned d (state_of (new_async_cache opt c r))
unfolding new_async_cache
new_keeps_IsAbandoned opt c d r h =
    and_then_keeps opt c d (join_expire opt c r)
      (ap (λ m. (slot_of d m).abandoned) (join_expire_refresh_map opt c r) ∙ h)

later_keeps_IsAbandoned :
    (d : ℤ) (calls : List (TickerOptions × ℕ)) (r : Registry)
    → IsAbandoned d r
    → IsAbandoned d (later_calls calls r)
unfolding later_calls
later_keeps_IsAbandoned d [] r h = h
later_keeps_IsAbandoned d ((opt, c) ∷ calls) r h =
    later_keeps_IsAbandoned d calls _ (new_keeps_IsAbandoned opt c d r h)

refresh_does_not_return :
    (opt : TickerOptions) (c : ℕ) (e : Ending Registry)
    → IsAbandoned opt.refresh_duration (state_of e)
    → has_returned (and_then e (join_refresh opt c)) ≡ false
unfolding join_refresh join_in
refresh_does_not_return opt c (returns r) h =
    rw (join_abandoned opt.refresh_duration c (slot_of opt.refresh_duration r.refresh_ticker_map) h)
      refl
refresh_does_not_return opt c (panics r) h = refl
refresh_does_not_return opt c (waits r) h = refl

abandoned_does_not_return :
    (opt : TickerOptions) (c : ℕ) (r : Registry)
    → IsAbandoned opt.refresh_duration r
    → has_returned (new_async_cache opt c r) ≡ false
unfolding new_async_cache
abandoned_does_not_return opt c r h =
    refresh_does_not_return opt c (join_expire opt c r)
      (ap (λ m. (slot_of opt.refresh_duration m).abandoned) (join_expire_refresh_map opt c r) ∙ h)

abbrev abandoned_by : ℕ → Slot → Slot
abandoned_by c s = record {
  ticker = record (s.ticker) { caches = register c s.ticker.caches; started = true };
  abandoned = true;
}

join_panics :
    (d : ℤ) (c : ℕ) (s : Slot)
    → can_lock s ≡ true
    → s.ticker.started ≡ false
    → ltb_ℤ (pos 0) d ≡ false
    → join d c s ≡ panics (abandoned_by c s)
unfolding join
join_panics d c s free idle bad = rw (free, idle, bad) refl

-- From maps in which no lock is taken, NewAsyncCache with a refresh interval that is not positive, whose ticker
-- does not run, and with a valid interval of the expiry, panics; and whatever calls of NewAsyncCache
-- follow, none with that refresh interval ever returns.
pub new_async_cache_stuck :
    (opt : TickerOptions) (c : ℕ) (r : Registry)
    → is_expire_valid opt ≡ true
    → ltb_ℤ (pos 0) opt.refresh_duration ≡ false
    → (slot_of opt.refresh_duration r.refresh_ticker_map).ticker.started ≡ false
    → IsReady r
    → (after : Registry) × (new_async_cache opt c r ≡ panics after)
      × ((calls : List (TickerOptions × ℕ)) (opt' : TickerOptions) (c' : ℕ)
          → has_returned (
              new_async_cache
                (record opt' { refresh_duration = opt.refresh_duration })
                c'
                (later_calls calls after))
            ≡ false)
unfolding new_async_cache join_refresh join_in
new_async_cache_stuck opt c r valid bad idle ready =
    let (m, expire_done, at_expire) = expire_joined opt c r valid ready.expire_ready in
    let d = opt.refresh_duration in
    let s = slot_of d r.refresh_ticker_map in
    let after : Registry = record {
      refresh_ticker_map = insert d (abandoned_by c s) r.refresh_ticker_map;
      expire_ticker_map = m;
    } in
    let abandoned : IsAbandoned d after =
      ap (λ t. t.abandoned) (slot_of-insert d d (abandoned_by c s) r.refresh_ticker_map)
      ∙ rw (beq_refl d) refl in
    (
      after,
      rw expire_done (
          ap (map_ending (λ n. record { refresh_ticker_map = n; expire_ticker_map = m })) (
            ap (map_ending (λ t. insert d t r.refresh_ticker_map))
              (join_panics d c s (ready.refresh_ready d) idle bad))),
      λ calls opt' c'.
          abandoned_does_not_return (record opt' { refresh_duration = d }) c'
            (later_calls calls after) (later_keeps_IsAbandoned d calls after abandoned),
    )
