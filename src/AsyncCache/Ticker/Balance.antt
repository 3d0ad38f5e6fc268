-- ===== src/AsyncCache/Ticker/Balance.antt =====
-- asynccache/asynccache.go: the loops of a shared ticker, the stop values and the registered caches
-- stay in balance as long as each cache is closed once.
use utils_go.Base.{
  ℕ, ◌+◌, ◌≤◌, ◌≡◌, ◌≢◌, refl, some, Bool, true, false, List, [], ◌∷◌, not, if◌then◌else◌, arith,
}
use utils_go.AsyncCache.Ticker.{
  Lock, SharedTicker, new_ticker, Move, create, close, send, fire, enter, leave, stop, contains,
  register, is_empty, act, loops,
}

-- A Close is of a cache that is registered.
abbrev pub proper : Move → SharedTicker → Bool
proper (close c) t = contains c t.caches
proper _ t = true

-- The tickers that an interleaving of creations, closes and loops leads to in which each Close is of a
-- cache that is registered. Close itself does not test that; SecondClose is about one that is not.
pub data Reach : SharedTicker → Type 0 where
  here : Reach new_ticker
  next :
      (mv : Move) {t u : SharedTicker} → Reach t → proper mv t ≡ true → act mv t ≡ some u → Reach u

-- `started` tells whether a cache is registered; only a Close that blocks in its send still has to
-- reset it.
abbrev pub Listed : Lock → SharedTicker → Type 0
Listed Lock.sending t = (t.started ≡ true) × (is_empty t.caches ≡ true)
Listed _ t = t.started ≡ not (is_empty t.caches)

pub record IsBalanced (t : SharedTicker) : Type 0 where
  pub balance : loops t ≡ t.tokens + (if t.started then 1 else 0)
  pub room : t.tokens ≤ 1
  pub listed : Listed t.lock t

is_empty-register : (c : ℕ) (xs : List ℕ) → is_empty (register c xs) ≡ false
is_empty-register c [] = refl
is_empty-register c (x ∷ xs) = ground arith

module _ (t u : SharedTicker) (b : IsBalanced t) where
  create-IsBalanced : (c : ℕ) → act (create c) t ≡ some u → IsBalanced u
  unfolding act
  create-IsBalanced c h = ground (arith, is_empty-register c t.caches)

  close-IsBalanced : (c : ℕ) → contains c t.caches ≡ true → act (close c) t ≡ some u → IsBalanced u
  unfolding act
  close-IsBalanced c p h = ground arith

  send-IsBalanced : act send t ≡ some u → IsBalanced u
  unfolding act
  send-IsBalanced h = ground arith

  fire-IsBalanced : act fire t ≡ some u → IsBalanced u
  unfolding act
  fire-IsBalanced h = ground arith

  enter-IsBalanced : act enter t ≡ some u → IsBalanced u
  unfolding act
  enter-IsBalanced h = ground arith

  leave-IsBalanced : act leave t ≡ some u → IsBalanced u
  unfolding act
  leave-IsBalanced h = ground arith

  stop-IsBalanced : act stop t ≡ some u → IsBalanced u
  unfolding act
  stop-IsBalanced h = ground arith

act-IsBalanced :
    (mv : Move) (t u : SharedTicker)
    → IsBalanced t
    → proper mv t ≡ true
    → act mv t ≡ some u
    → IsBalanced u
act-IsBalanced (create c) t u b p h = create-IsBalanced t u b c h
act-IsBalanced (close c) t u b p h = close-IsBalanced t u b c p h
act-IsBalanced send t u b p h = send-IsBalanced t u b h
act-IsBalanced fire t u b p h = fire-IsBalanced t u b h
act-IsBalanced enter t u b p h = enter-IsBalanced t u b h
act-IsBalanced leave t u b p h = leave-IsBalanced t u b h
act-IsBalanced stop t u b p h = stop-IsBalanced t u b h

-- In every state that an interleaving leads to in which each Close is of a registered cache, there
-- are as many loops as stop values, and one more while the ticker counts as started; at most one stop
-- value; and `started` tells whether a cache is registered, but for a Close that blocks in its send.
pub Reach-IsBalanced : {t : SharedTicker} → Reach t → IsBalanced t
Reach-IsBalanced here = record { balance = omega arith; room = omega arith; listed = refl }
Reach-IsBalanced (next mv {t = t} {u = u} r p h) = act-IsBalanced mv t u (Reach-IsBalanced r) p h

loops_of_balance :
    (t : SharedTicker)
    → IsBalanced t
    → t.lock ≢ Lock.sending
    → t.tokens ≡ 0
    → loops t ≡ (if is_empty t.caches then 0 else 1)
loops_of_balance t b open_lock h = ground arith

-- In every state that moves lead to in which each Close is of a registered cache: where no Close blocks
-- in its send and no stop value is pending, exactly one loop runs while caches are registered, and
-- none runs when all are closed.
pub loops_of_caches :
    {t : SharedTicker}
    → Reach t
    → t.lock ≢ Lock.sending
    → t.tokens ≡ 0
    → loops t ≡ (if is_empty t.caches then 0 else 1)
loops_of_caches {t} r open_lock h = loops_of_balance t (Reach-IsBalanced r) open_lock h
