-- ===== src/AsyncCache/Ticker.antt =====
-- asynccache/asynccache.go: a sharedTicker, the goroutines that run its tick loop, and what
-- NewAsyncCache and Close do to it. One record is one shared ticker; a cache registers with the one
-- of its refresh interval and, when EnableExpire is set, with the one of its expire interval.
--
-- The critical sections of NewAsyncCache and Close are one move each, but for the send on stopChan,
-- which may block with the lock held. A loop is in its select, waits for the lock after the ticker
-- fired, or holds the lock while the caches are refreshed.
pub mod Balance
pub mod Stuck
pub mod SecondClose
use utils_go.Base.{
  ℕ, zero, suc, ◌+◌, ◌≡◌, Option, none, some, Bool, true, false, List, [], ◌∷◌, ◌||◌, not, nat_beq,
  ltb, if◌then◌else◌,
}

-- Who holds the lock: nobody, a loop, or a Close that is sending on stopChan.
pub data Lock : Type 0 where
  free ticking sending : Lock

pub record SharedTicker : Type 0 where
  pub started : Bool
  -- values in the buffer of stopChan
  pub tokens : ℕ
  -- the registered caches, each by a number that stands for its address
  pub caches : List ℕ
  -- loops in their select
  pub selecting : ℕ
  -- loops that wait for the lock
  pub waiting : ℕ
  pub lock : Lock

-- &sharedTicker{caches: make(...), stopChan: make(chan bool, 1)}
abbrev pub new_ticker : SharedTicker
new_ticker = record {
  started = false;
  tokens = 0;
  caches = [];
  selecting = 0;
  waiting = 0;
  lock = Lock.free;
}

pub data Move : Type 0 where
  create close : ℕ → Move
  send fire enter leave stop : Move

abbrev pub contains : ℕ → List ℕ → Bool
contains c [] = false
contains c (x ∷ xs) = nat_beq x c || contains c xs

-- caches[c] = struct{}{}
abbrev pub register : ℕ → List ℕ → List ℕ
register c xs = if contains c xs then xs else c ∷ xs

-- delete(caches, c)
abbrev pub unregister : ℕ → List ℕ → List ℕ
unregister c [] = []
unregister c (x ∷ xs) = if nat_beq x c then xs else x ∷ unregister c xs

abbrev pub is_empty : List ℕ → Bool
is_empty [] = true
is_empty (_ ∷ _) = false

-- the section of NewAsyncCache under the ticker's lock
unfoldable pub create_section : ℕ → SharedTicker → SharedTicker
create_section c t =
    let t' = record t { caches = register c t.caches } in
    if t.started then t' else record t' { started = true; selecting = suc t.selecting }

-- stopChan <- true; started = false; Unlock. The send has room for one value.
unfoldable pub finish_close : SharedTicker → SharedTicker
finish_close t =
    if ltb t.tokens 1
    then record t { tokens = suc t.tokens; started = false; lock = Lock.free }
    else record t { lock = Lock.sending }

-- the section of Close under the ticker's lock
unfoldable pub close_section : ℕ → SharedTicker → SharedTicker
unfolding finish_close
close_section c t =
    let t' = record t { caches = unregister c t.caches } in
    if is_empty t'.caches then finish_close t' else t'

abbrev pub lock_is_free : SharedTicker → Bool
lock_is_free t = elim t.lock [ Lock.free ↦ true | _ ↦ false ]

abbrev pub with_lock : SharedTicker → SharedTicker → Option SharedTicker
with_lock t t' = if lock_is_free t then some t' else none

-- case <-ticker.C
unfoldable pub fire_section : ℕ → SharedTicker → Option SharedTicker
fire_section zero t = none
fire_section (suc n) t = some (record t { selecting = n; waiting = suc t.waiting })

-- t.Lock() in the loop
unfoldable pub enter_section : ℕ → SharedTicker → Option SharedTicker
enter_section zero t = none
enter_section (suc n) t = with_lock t (record t { waiting = n; lock = Lock.ticking })

-- case stop := <-t.stopChan
unfoldable pub stop_section : ℕ → ℕ → SharedTicker → Option SharedTicker
stop_section (suc n) (suc k) t = some (record t { selecting = n; tokens = k })
stop_section _ _ t = none

-- A move, or `none` where it is not enabled.
unfoldable pub act : Move → SharedTicker → Option SharedTicker
unfolding create_section close_section fire_section enter_section stop_section
act (create c) t = with_lock t (create_section c t)
act (close c) t = with_lock t (close_section c t)
act send t = elim t.lock [
  | Lock.sending ↦ if ltb t.tokens 1 then some (finish_close t) else none
  | _ ↦ none
]
act fire t = fire_section t.selecting t
act enter t = enter_section t.waiting t
act leave t = elim t.lock [
  | Lock.ticking ↦ some (record t { selecting = suc t.selecting; lock = Lock.free })
  | _ ↦ none
]
act stop t = stop_section t.selecting t.tokens t

-- the loops that have not returned
abbrev pub loops : SharedTicker → ℕ
loops t = t.selecting + t.waiting + (elim t.lock [ Lock.ticking ↦ 1 | _ ↦ 0 ])

unfoldable pub run : List Move → SharedTicker → Option SharedTicker
run [] t = some t
run (mv ∷ mvs) t = elim (act mv t) [ none ↦ none | some u ↦ run mvs u ]
