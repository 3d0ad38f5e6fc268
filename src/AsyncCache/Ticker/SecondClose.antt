-- ===== src/AsyncCache/Ticker/SecondClose.antt =====
-- asynccache/asynccache.go: a second Close of a cache leaves a stop value that ends the loop of the next
-- cache.
use mathlib.Core.Path.{subst}
use utils_go.Base.{
  ℕ, suc, zero, ◌+◌, ◌≤◌, ◌≡◌, ◌≢◌, refl, some, Bool, true, false, List, [], ◌∷◌, All, arith,
  Option-cases, inl, inr,
}
use utils_go.AsyncCache.Ticker.{
  Lock, SharedTicker, new_ticker, Move, create, close, send, fire, enter, leave, stop, contains,
  register, act, run, loops,
}
use utils_go.AsyncCache.Ticker.Balance.{Reach, IsBalanced, Reach-IsBalanced}

abbrev pub is_close : Move → Bool
is_close (close c) = true
is_close _ = false

-- The stop values that loops take in a run.
abbrev pub stops : List Move → ℕ
stops [] = 0
stops (stop ∷ mvs) = suc (stops mvs)
stops (_ ∷ mvs) = stops mvs

-- The cache is registered, the ticker counts as started, and n loops run, for each of which a stop value waits.
abbrev IsDoomed : ℕ → ℕ → SharedTicker → Type 0
IsDoomed d n t =
    (contains d t.caches ≡ true)
    × (t.started ≡ true)
    × (loops t ≡ n)
    × (t.tokens ≡ n)
    × (t.lock ≢ Lock.sending)

contains-register :
    (d c : ℕ) (xs : List ℕ) → contains d xs ≡ true → contains d (register c xs) ≡ true
contains-register d c xs h = ground arith

-- What one move leaves of n loops and stop values.
abbrev IsLeft : Move → ℕ → ℕ → Type 0
IsLeft stop n m = n ≡ suc m
IsLeft _ n m = n ≡ m

act-IsDoomed :
    (d n : ℕ) (mv : Move) (t u : SharedTicker)
    → is_close mv ≡ false
    → IsDoomed d n t
    → act mv t ≡ some u
    → (m : ℕ) × IsLeft mv n m × IsDoomed d m u
unfolding act
act-IsDoomed d n (create c) t u h (listed, started, running, tokens, open_lock) e =
    (n, refl, ground (arith, contains-register d c t.caches listed))
act-IsDoomed d n (close c) t u h doomed e = absurd (ground arith)
act-IsDoomed d n send t u h (listed, started, running, tokens, open_lock) e = absurd (ground arith)
act-IsDoomed d n fire t u h (listed, started, running, tokens, open_lock) e =
    (n, refl, ground arith)
act-IsDoomed d n enter t u h (listed, started, running, tokens, open_lock) e =
    (n, refl, ground arith)
act-IsDoomed d n leave t u h (listed, started, running, tokens, open_lock) e =
    (n, refl, ground arith)
act-IsDoomed d n stop t u h (listed, started, running, tokens, open_lock) e =
    (u.tokens, ground arith, ground arith)

add-IsLeft :
    (mv : Move) (mvs : List Move) (n m k : ℕ)
    → IsLeft mv n m
    → m ≡ stops mvs + k
    → n ≡ stops (mv ∷ mvs) + k
add-IsLeft (create c) mvs n m k l e = omega arith
add-IsLeft (close c) mvs n m k l e = omega arith
add-IsLeft send mvs n m k l e = omega arith
add-IsLeft fire mvs n m k l e = omega arith
add-IsLeft enter mvs n m k l e = omega arith
add-IsLeft leave mvs n m k l e = omega arith
add-IsLeft stop mvs n m k l e = omega arith

abbrev pub NoClose : List Move → Type 0
NoClose mvs = All (λ mv. is_close mv ≡ false) mvs

option_inj : (t u : SharedTicker) → run [] t ≡ some u → t ≡ u
unfolding run
option_inj t u e = cc

run-IsDoomed :
    (d n : ℕ) (mvs : List Move) (t u : SharedTicker)
    → NoClose mvs
    → IsDoomed d n t
    → run mvs t ≡ some u
    → (m : ℕ) × (n ≡ stops mvs + m) × IsDoomed d m u
unfolding run
run-IsDoomed d n [] t u calm doomed e =
    (n, omega arith, subst (IsDoomed d n) (option_inj t u e) doomed)
run-IsDoomed d n (mv ∷ mvs) t u calm doomed e = elim (Option-cases (act mv t)) [
  | inl stuck ↦ absurd (ground arith)
  | inr (v, moved) ↦
      let (m, l, doomed') = act-IsDoomed d n mv t v calm.0 doomed moved in
      let (k, more, doomed'') = run-IsDoomed d m mvs v u calm.1 doomed' (ground arith) in
      (k, add-IsLeft mv mvs n m k l more, doomed'')
]

-- Moves, none of them a Close, that lead to a ticker without a loop.
abbrev pub CanStop : SharedTicker → Type 0
CanStop u =
    (more : List Move) × NoClose more × ((w : SharedTicker) × (run more u ≡ some w) × (loops w ≡ 0))

-- A loop that has a stop value can come to its select and take it.
can_stop :
    (started : Bool) (caches : List ℕ) (tokens selecting waiting : ℕ) (lock : Lock)
    → 1 ≤ tokens
    → lock ≢ Lock.sending
    → selecting + waiting + (elim lock [ Lock.ticking ↦ 1 | _ ↦ 0 ]) ≡ 1
    → CanStop (record {
      started = started;
      tokens = tokens;
      caches = caches;
      selecting = selecting;
      waiting = waiting;
      lock = lock;
    })
unfolding run act
can_stop b cs zero s w l some_value open_lock e = absurd (omega arith)
can_stop b cs (suc k) (suc s) w Lock.free some_value open_lock e =
    (stop ∷ [], (refl, tt), (_, refl, omega arith))
can_stop b cs (suc k) zero (suc w) Lock.free some_value open_lock e =
    (enter ∷ leave ∷ stop ∷ [], (refl, (refl, (refl, tt))), (_, refl, omega arith))
can_stop b cs (suc k) zero zero Lock.free some_value open_lock e = absurd (omega arith)
can_stop b cs (suc k) (suc s) w Lock.ticking some_value open_lock e = absurd (omega arith)
can_stop b cs (suc k) zero w Lock.ticking some_value open_lock e =
    (leave ∷ stop ∷ [], (refl, (refl, tt)), (_, refl, omega arith))
can_stop b cs (suc k) s w Lock.sending some_value open_lock e = absurd (open_lock refl)

IsDoomed-CanStop : (d m : ℕ) (u : SharedTicker) → m ≤ 1 → IsDoomed d m u → CanStop u
unfolding run
IsDoomed-CanStop d zero u few (listed, started, running, tokens, open_lock) =
    ([], tt, (u, refl, running))
IsDoomed-CanStop d (suc zero) u few (listed, started, running, tokens, open_lock) =
    can_stop u.started u.caches u.tokens u.selecting u.waiting u.lock (omega arith) open_lock
      running
IsDoomed-CanStop d (suc (suc m)) u few (listed, started, running, tokens, open_lock) =
    absurd (omega arith)

-- A balanced ticker that has nothing left is like a new one.
nothing_left :
    (t : SharedTicker)
    → IsBalanced t
    → t.caches ≡ []
    → t.lock ≡ Lock.free
    → t.tokens ≡ 0
    → t ≡ new_ticker
nothing_left t b closed open_lock drained =
    let idle : t.started ≡ false = ground (arith, b.listed) in
    let none_runs : (t.selecting ≡ 0) × (t.waiting ≡ 0) = ground (arith, b.balance) in
    λ i. record {
      started = idle i;
      tokens = drained i;
      caches = closed i;
      selecting = none_runs.0 i;
      waiting = none_runs.1 i;
      lock = open_lock i;
    }

-- The ticker after a Close on a new ticker and the creation of a cache.
abbrev created : ℕ → SharedTicker
created d = record {
  started = true;
  tokens = 1;
  caches = d ∷ [];
  selecting = 1;
  waiting = 0;
  lock = Lock.free;
}

created-IsDoomed : (d : ℕ) → IsDoomed d 1 (created d)
created-IsDoomed d = (ground arith, refl, refl, refl, λ h. cc)

after_second_close :
    (c d : ℕ) (mvs : List Move) (u : SharedTicker)
    → run (close c ∷ create d ∷ mvs) new_ticker ≡ some u
    → run mvs (created d) ≡ some u
unfolding run act
after_second_close c d mvs u e = e

-- From a ticker that moves lead to in which each Close is of a registered cache, on which every cache is closed, no stop value is pending and nobody holds the
-- lock: after a Close, which then is of a cache that is closed already, and the creation of a cache `d`,
-- and then any moves without a Close, `d` is registered and the ticker counts as started. One loop runs
-- until a loop takes the stop value and none after it, and moves without a Close can lead to a ticker
-- without a loop.
pub second_close_stops_ticker :
    {t : SharedTicker}
    → Reach t
    → t.caches ≡ []
    → t.tokens ≡ 0
    → t.lock ≡ Lock.free
    → (c d : ℕ) (mvs : List Move) (u : SharedTicker) → NoClose mvs
    → run (close c ∷ create d ∷ mvs) t ≡ some u
    → (contains d u.caches ≡ true) × (u.started ≡ true) × (stops mvs + loops u ≡ 1) × CanStop u
second_close_stops_ticker {t} reach closed drained open_lock c d mvs u calm e =
    let fresh = nothing_left t (Reach-IsBalanced reach) closed open_lock drained in
    let from_new = subst (λ s. run (close c ∷ create d ∷ mvs) s ≡ some u) fresh e in
    let (m, balance, doomed) =
      run-IsDoomed d 1 mvs (created d) u calm (created-IsDoomed d)
        (after_second_close c d mvs u from_new) in
    let (listed, started, running, _, _) = doomed in
    (listed, started, omega arith, IsDoomed-CanStop d m u (omega arith) doomed)
