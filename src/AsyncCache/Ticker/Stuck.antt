-- ===== src/AsyncCache/Ticker/Stuck.antt =====
-- asynccache/asynccache.go: the send of Close on stopChan can block with the lock held that every loop
-- waits for.
use utils_go.Base.{ℕ, ◌≡◌, ◌↔◌, refl, none, some, true, false, List, [], ◌∷◌, nat_beq, ltb, arith}
use utils_go.AsyncCache.Ticker.{
  Lock, SharedTicker, Move, create, close, send, fire, enter, leave, stop, act, run,
}

-- No move is enabled.
abbrev pub Stuck : SharedTicker → Type 0
Stuck t = (mv : Move) → act mv t ≡ none

Stuck-if :
    (t : SharedTicker) → t.lock ≡ Lock.sending → t.selecting ≡ 0 → ltb t.tokens 1 ≡ false → Stuck t
unfolding act
Stuck-if t l s k (create c) = ground arith
Stuck-if t l s k (close c) = ground arith
Stuck-if t l s k send = ground arith
Stuck-if t l s k fire = ground arith
Stuck-if t l s k enter = ground arith
Stuck-if t l s k leave = ground arith
Stuck-if t l s k stop = ground arith

only_if :
    (t : SharedTicker)
    → Stuck t
    → (t.lock ≡ Lock.sending) × (t.selecting ≡ 0) × (ltb t.tokens 1 ≡ false)
unfolding act
only_if t stuck =
    let c : act (create 0) t ≡ none = stuck (create 0) in
    let l : act leave t ≡ none = stuck leave in
    let f : act fire t ≡ none = stuck fire in
    let s : act send t ≡ none = stuck send in
    (ground (arith, c, l), ground (arith, f), ground (arith, c, l, s))

-- No move of a shared ticker is enabled exactly when a Close sends with the lock held, stopChan has
-- no room, and no loop is in its select.
pub Stuck-iff :
    (t : SharedTicker)
    → Stuck t ↔ ((t.lock ≡ Lock.sending) × (t.selecting ≡ 0) × (ltb t.tokens 1 ≡ false))
Stuck-iff t = (only_if t, λ (l, s, k). Stuck-if t l s k)

-- The last cache `c` is closed, a cache `d` with the same interval is created before a loop takes
-- the stop value, the ticker fires in both loops, and `d` is closed.
abbrev pub close_create_close : ℕ → ℕ → List Move
close_create_close c d = close c ∷ create d ∷ fire ∷ fire ∷ close d ∷ []

-- The ticker of one registered cache, its loop in its select.
abbrev pub serves_one : ℕ → SharedTicker
serves_one c = record {
  started = true;
  tokens = 0;
  caches = c ∷ [];
  selecting = 1;
  waiting = 0;
  lock = Lock.free;
}

nat_beq_self : (c : ℕ) → nat_beq c c ≡ true
nat_beq_self c = ground arith

-- From the ticker of any one cache, closing it and creating and closing another one can reach a
-- deadlock, although each cache is closed once.
pub close_may_deadlock :
    (c d : ℕ)
    → (t : SharedTicker) × (run (close_create_close c d) (serves_one c) ≡ some t) × Stuck t
unfolding run act
close_may_deadlock c d =
    let t : SharedTicker = record {
      started = true;
      tokens = 1;
      caches = [];
      selecting = 0;
      waiting = 2;
      lock = Lock.sending;
    } in
    (t, ground (arith, nat_beq_self c, nat_beq_self d), Stuck-if t refl refl refl)
