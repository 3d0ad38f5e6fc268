-- ===== src/AsyncCache/Registry/Start.antt =====
-- asynccache/asynccache.go: when NewAsyncCache returns, and what a panic in it leaves behind.
use mathlib.Core.Path.{subst}
use utils_go.Base.{
  ℕ, ◌≡◌, refl, ap, ◌∙◌, arith, Bool, true, false, ◌&&◌, ◌||◌, not, inl, inr, ◌⊎◌, Bool-cases,
  if◌then◌else◌, ◌==◌, ◌+◌, ◌↔◌, In, List, [], ◌∷◌, sym, beq_refl, nat_beq, nat_beq_iff,
}
use utils_go.Base.Int.{ℤ, pos, negsuc, int_eq, ltb_ℤ}
use utils_go.Base.GoMap.{GoMap, insert, lookup-insert}
use utils_go.AsyncCache.Ticker.{create_section, register, contains}
use utils_go.AsyncCache.Registry.{
  Slot, Registry, TickerOptions, Ending, returns, panics, waits, map_ending, slot_of, can_lock,
  join, join_in, join_expire, join_refresh, new_async_cache,
}

abbrev pub state_of : {A : Type 0} → Ending A → A
state_of (returns a) = a
state_of (panics a) = a
state_of (waits a) = a

abbrev pub has_returned : {A : Type 0} → Ending A → Bool
has_returned (returns a) = true
has_returned (panics a) = false
has_returned (waits a) = false

-- No lock is taken.
pub record IsReady (r : Registry) : Type 0 where
  pub refresh_ready : (d : ℤ) → can_lock (slot_of d r.refresh_ticker_map) ≡ true
  pub expire_ready : (d : ℤ) → can_lock (slot_of d r.expire_ticker_map) ≡ true

-- The intervals that are used are positive.
unfoldable pub is_expire_valid : TickerOptions → Bool
is_expire_valid opt = not opt.enable_expire || ltb_ℤ (pos 0) opt.expire_duration

pub slot_of-insert :
    (written read : ℤ) (s : Slot) (m : GoMap ℤ Slot)
    → slot_of read (insert written s m) ≡ (if written == read then s else slot_of read m)
unfolding slot_of
slot_of-insert written read s m = elim (Bool-cases (written == read)) [
  | inl same ↦ rw (slot_of, lookup-insert written read s m, same) refl
  | inr other ↦ rw (slot_of, lookup-insert written read s m, other) refl
]

abbrev joined : ℕ → Slot → Slot
joined c s = record s { ticker = create_section c s.ticker }

join_positive :
    (d : ℤ) (c : ℕ) (s : Slot)
    → can_lock s ≡ true
    → ltb_ℤ (pos 0) d ≡ true
    → join d c s ≡ returns (joined c s)
unfolding join
join_positive d c s free positive = ground arith

can_lock-joined : (c : ℕ) (s : Slot) → can_lock s ≡ true → can_lock (joined c s) ≡ true
unfolding create_section
can_lock-joined c s free = elim (Bool-cases s.ticker.started) [
  | inl started ↦ rw started free
  | inr idle ↦ rw idle free
]

pub join_abandoned : (d : ℤ) (c : ℕ) (s : Slot) → s.abandoned ≡ true → join d c s ≡ waits s
unfolding join
join_abandoned d c s h = ground arith

join_in_positive :
    (d : ℤ) (c : ℕ) (m : GoMap ℤ Slot)
    → can_lock (slot_of d m) ≡ true
    → ltb_ℤ (pos 0) d ≡ true
    → join_in d c m ≡ returns (insert d (joined c (slot_of d m)) m)
unfolding join_in
join_in_positive d c m free positive =
    ap (map_ending (λ s. insert d s m)) (join_positive d c (slot_of d m) free positive)

-- The section has run on the ticker of an interval, where the test holds, and the other tickers are as they were.
abbrev pub SectionAt : Bool → ℤ → ℕ → GoMap ℤ Slot → GoMap ℤ Slot → Type 0
SectionAt test d c before after =
    (read : ℤ)
    → slot_of read after ≡ (
        if test && (d == read)
        then record (slot_of read before) { ticker = create_section c (slot_of read before).ticker }
        else slot_of read before)

SectionAt-insert :
    (d : ℤ) (c : ℕ) (m : GoMap ℤ Slot) → SectionAt true d c m (insert d (joined c (slot_of d m)) m)
SectionAt-insert d c m read =
    slot_of-insert d read (joined c (slot_of d m)) m ∙ at_key (Bool-cases (d == read))
  where
    at_key :
        ((d == read) ≡ true) ⊎ ((d == read) ≡ false)
        → (if d == read then joined c (slot_of d m) else slot_of read m)
          ≡ (if d == read then joined c (slot_of read m) else slot_of read m)
    at_key (inl same) =
        rw same (ap (λ k. joined c (slot_of k m)) ((int_eq.equal_iff d read).0 same))
    at_key (inr other) = rw other refl

SectionAt-ready :
    (test : Bool) (d : ℤ) (c : ℕ) (before after : GoMap ℤ Slot)
    → SectionAt test d c before after
    → ((read : ℤ) → can_lock (slot_of read before) ≡ true)
    → (read : ℤ) → can_lock (slot_of read after) ≡ true
SectionAt-ready test d c before after j ready read = elim (Bool-cases (test && (d == read))) [
  | inl here ↦ rw (j read, here) (can_lock-joined c (slot_of read before) (ready read))
  | inr there ↦ rw (j read, there) (ready read)
]

positive-ne-zero : (z : ℤ) → ltb_ℤ (pos 0) z ≡ true → (z == pos 0) ≡ false
positive-ne-zero (pos n) h = ground arith
positive-ne-zero (negsuc n) h = refl

pub expire_joined :
    (opt : TickerOptions) (c : ℕ) (r : Registry)
    → is_expire_valid opt ≡ true
    → ((d : ℤ) → can_lock (slot_of d r.expire_ticker_map) ≡ true)
    → (m : GoMap ℤ Slot) × (join_expire opt c r ≡ returns (record r { expire_ticker_map = m }))
      × SectionAt opt.enable_expire opt.expire_duration c r.expire_ticker_map m
unfolding is_expire_valid join_expire
expire_joined opt c r valid ready = elim (Bool-cases opt.enable_expire) [
  | inr off ↦ (r.expire_ticker_map, rw off refl, λ read. rw off refl)
  | inl on ↦
      let positive : ltb_ℤ (pos 0) opt.expire_duration ≡ true = rw on at valid in
      let some_time : (opt.expire_duration == pos 0) ≡ false =
        positive-ne-zero opt.expire_duration positive in
      (
        insert opt.expire_duration (joined c (slot_of opt.expire_duration r.expire_ticker_map))
            r.expire_ticker_map,
        rw (on, some_time)
            (ap (map_ending (λ m. record r { expire_ticker_map = m }))
              (join_in_positive opt.expire_duration c r.expire_ticker_map (ready _) positive)),
        λ read. rw on (SectionAt-insert opt.expire_duration c r.expire_ticker_map read),
      )
]

-- What joining does to a ticker: the cache is registered and every other one as before, the ticker counts as
-- started, and it has a loop more where it did not; the stop values and the loops that wait stay.
abbrev pub IsJoined : ℕ → Slot → Slot → Type 0
IsJoined c before after =
    ((x : ℕ) → In x after.ticker.caches ↔ ((x ≡ c) ⊎ In x before.ticker.caches))
    × (after.ticker.started ≡ true)
    × (after.ticker.selecting ≡ before.ticker.selecting + (if before.ticker.started then 0 else 1))
    × (after.ticker.waiting ≡ before.ticker.waiting)
    × (after.ticker.tokens ≡ before.ticker.tokens)

-- A cache has joined the ticker of an interval, where the test holds, and the other tickers are as they were.
abbrev pub JoinedAt : Bool → ℤ → ℕ → GoMap ℤ Slot → GoMap ℤ Slot → Type 0
JoinedAt test d c before after =
    (test ≡ true → IsJoined c (slot_of d before) (slot_of d after))
    × ((read : ℤ) → (test && (d == read)) ≡ false → slot_of read after ≡ slot_of read before)

In-contains : (x : ℕ) (xs : List ℕ) → contains x xs ≡ true → In x xs
In-contains x [] h = cc
In-contains x (y ∷ ys) h = elim (Bool-cases (nat_beq y x)) [
  | inl same ↦ inl ((nat_beq_iff y x).0 same)
  | inr other ↦ inr (In-contains x ys (ground arith))
]

In-register : (c : ℕ) (xs : List ℕ) (x : ℕ) → In x (register c xs) ↔ ((x ≡ c) ⊎ In x xs)
In-register c xs x = elim (Bool-cases (contains c xs)) [
  | inl known ↦ rw known (inr, λ i. elim i [ inl e ↦ rw e (In-contains c xs known) | inr j ↦ j ])
  | inr fresh ↦ rw fresh (
    λ i. elim i [ inl e ↦ inl (sym e) | inr j ↦ inr j ],
    λ i. elim i [ inl e ↦ inl (sym e) | inr j ↦ inr j ],
  )
]

joined-IsJoined : (c : ℕ) (s : Slot) → IsJoined c s (joined c s)
unfolding create_section
joined-IsJoined c s = elim (Bool-cases s.ticker.started) [
  | inl started ↦ rw started (In-register c s.ticker.caches, refl, omega arith, refl, refl)
  | inr idle ↦ rw idle (In-register c s.ticker.caches, refl, omega arith, refl, refl)
]

JoinedAt-section :
    (test : Bool) (d : ℤ) (c : ℕ) (before after : GoMap ℤ Slot)
    → SectionAt test d c before after
    → JoinedAt test d c before after
JoinedAt-section test d c before after at = (
  λ holds.
      let here : slot_of d after ≡ joined c (slot_of d before) =
        at d ∙ (rw (holds, beq_refl d) refl) in
      subst (IsJoined c (slot_of d before)) (sym here) (joined-IsJoined c (slot_of d before)),
  λ read other. at read ∙ rw other refl,
)

-- From maps in which no lock is taken, and with positive intervals (that of the expiry only where it is
-- enabled), NewAsyncCache returns. The cache is then registered with the refresh ticker of its interval
-- and, where the expiry is enabled, with the expire ticker of its interval, beside the caches that were;
-- each of these counts as started, and has one more loop in its select where it did not, with the same
-- stop values and waiting loops. All other tickers are as they were, and no lock is taken.
pub new_async_cache_returns :
    (opt : TickerOptions) (c : ℕ) (r : Registry)
    → is_expire_valid opt ≡ true
    → ltb_ℤ (pos 0) opt.refresh_duration ≡ true
    → IsReady r
    → (after : Registry) × (new_async_cache opt c r ≡ returns after)
      × JoinedAt true opt.refresh_duration c r.refresh_ticker_map after.refresh_ticker_map
      × JoinedAt opt.enable_expire opt.expire_duration c r.expire_ticker_map after.expire_ticker_map
      × IsReady after
unfolding new_async_cache join_refresh
new_async_cache_returns opt c r valid positive ready =
    let (m, expire_done, at_expire) = expire_joined opt c r valid ready.expire_ready in
    let d = opt.refresh_duration in
    let m' = insert d (joined c (slot_of d r.refresh_ticker_map)) r.refresh_ticker_map in
    let at_refresh = SectionAt-insert d c r.refresh_ticker_map in
    (
      record { refresh_ticker_map = m'; expire_ticker_map = m },
      rw expire_done (
          ap (map_ending (λ n. record { refresh_ticker_map = n; expire_ticker_map = m }))
            (join_in_positive d c r.refresh_ticker_map (ready.refresh_ready d) positive)),
      JoinedAt-section true d c r.refresh_ticker_map m' at_refresh,
      JoinedAt-section opt.enable_expire opt.expire_duration c r.expire_ticker_map m at_expire,
      record {
        refresh_ready =
            SectionAt-ready true d c r.refresh_ticker_map m' at_refresh ready.refresh_ready;
        expire_ready =
            SectionAt-ready opt.enable_expire opt.expire_duration c r.expire_ticker_map m at_expire
              ready.expire_ready;
      },
    )
