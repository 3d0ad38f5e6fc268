-- ===== src/AsyncCache/Calls.antt =====
-- asynccache/asynccache.go: sequences of calls and ticks on one cache, and the life of a key in it:
-- the abstract machine that the expire marks implement.
use mathlib.Core.Option
use utils_go.Base.{
  ◌≡◌, refl, Option, none, some, Bool, List, [], ◌∷◌, nat_beq, if◌then◌else◌, ◌==◌, arith,
}
use utils_go.Base.Text.{Text, text_eq}
use utils_go.Base.GoMap.{
  Distinct, lookup, lookup-insert, lookup-update_all, insert-Distinct, update_all-Distinct,
}
use utils_go.Base.Outcome.{Outcome, ok, ◌>>=◌}
use utils_go.AsyncCache.Entry.{Any, Entry}
use utils_go.AsyncCache.Cache.{
  Options, Fetched, AsyncCache, Group, put, set_default, get, get_or_set, delete_if, expire_entry,
  expire, refresh,
}
use utils_go.AsyncCache.Reads.{Alone, get-eq-put, get_or_set-eq-put, set_default-eq-put}
use utils_go.AsyncCache.Refresh.{expire-refresh, refresh-Distinct}

-- A call of a client, or a tick of a shared ticker.
pub data Call (D E : Type 0) : Type 0 where
  set_default_call : Text → Option (Any D) → Call D E
  get_call : Options D E → Text → Call D E
  get_or_set_call : Options D E → Text → Option (Any D) → Call D E
  dump_call : Call D E
  delete_if_call : Options D E → (Text → Bool) → Call D E
  expire_tick refresh_tick : Options D E → Call D E

-- A key is not cached, or cached and used since the last expire tick, or cached and not used.
pub data Life : Type 0 where
  absent used idle : Life

abbrev pub life_of : {D E : Type 0} → Option (Entry D E) → Life
life_of none = absent
life_of (some e) = if nat_beq e.expire 0 then used else idle

-- What an expire tick makes of a key.
abbrev pub tick_life : Life → Life
tick_life absent = absent
tick_life used = idle
tick_life idle = absent

-- What each call makes of the key `k`.
abbrev pub life_step : {D E : Type 0} → Text → Call D E → Life → Life
life_step k (set_default_call j v) l = if j == k then used else l
life_step k (get_call opt j) l = if j == k then used else l
life_step k (get_or_set_call opt j def) l = if j == k then used else l
life_step k dump_call l = l
life_step k (delete_if_call opt should_delete) l = if should_delete k then absent else l
life_step k (expire_tick opt) l = tick_life l
life_step k (refresh_tick opt) l = l

module _ {D E : Type 0} (sfg : Group (AsyncCache D E) (Fetched D E)) where
  unfoldable pub step : Call D E → AsyncCache D E → Outcome (AsyncCache D E)
  step (set_default_call k v) c = ok (set_default k v c).0
  step (get_call opt k) c = ok (get sfg opt k c).0
  step (get_or_set_call opt k def) c = ok (get_or_set sfg opt k def c).0
  step dump_call c = ok c
  step (delete_if_call opt should_delete) c = ok (delete_if opt should_delete c)
  step (expire_tick opt) c = ok (expire opt c)
  step (refresh_tick opt) c = refresh opt c

  unfoldable pub run : List (Call D E) → AsyncCache D E → Outcome (AsyncCache D E)
  unfolding step
  run [] c = ok c
  run (x ∷ xs) c = do c' ← step x c; run xs c'

abbrev pub life : {D E : Type 0} → Text → AsyncCache D E → Life
life k c = life_of (lookup k c.items)

life-put :
    {D E : Type 0} (j k : Text) (e : Entry D E) (c : AsyncCache D E)
    → e.expire ≡ 0
    → life k (put j e c) ≡ (if j == k then used else life k c)
life-put j k e c fresh = ground (arith, lookup-insert j k e c.items)

life-expire :
    {D E : Type 0} (opt : Options D E) (k : Text) (c : AsyncCache D E)
    → Distinct c.items
    → life k (expire opt c) ≡ tick_life (life k c)
unfolding expire Option.bind
life-expire opt k c d =
    ground (arith, lookup-update_all (λ (_ : Text) e. expire_entry e) k c.items d)

life-delete_if :
    {D E : Type 0} (opt : Options D E) (p : Text → Bool) (k : Text) (c : AsyncCache D E)
    → Distinct c.items
    → life k (delete_if opt p c) ≡ (if p k then absent else life k c)
unfolding delete_if Option.bind
life-delete_if {D} {E} opt p k c d =
    ground
      (arith, lookup-update_all (λ j (e : Entry D E). if p j then none else some e) k c.items d)

expire-Distinct :
    {D E : Type 0} (opt : Options D E) (c : AsyncCache D E)
    → Distinct c.items
    → Distinct (expire opt c).items
unfolding expire
expire-Distinct opt c d = update_all-Distinct (λ (_ : Text) e. expire_entry e) c.items d

delete_if-Distinct :
    {D E : Type 0} (opt : Options D E) (p : Text → Bool) (c : AsyncCache D E)
    → Distinct c.items
    → Distinct (delete_if opt p c).items
unfolding delete_if
delete_if-Distinct {D} {E} opt p c d =
    update_all-Distinct (λ j (e : Entry D E). if p j then none else some e) c.items d

life_of-expire :
    {D E : Type 0} (a b : Option (Entry D E))
    → Option.map (λ (e : Entry D E). e.expire) a ≡ Option.map (λ (e : Entry D E). e.expire) b
    → life_of a ≡ life_of b
life_of-expire none none h = refl
life_of-expire none (some e) h = cc
life_of-expire (some e) none h = cc
life_of-expire (some e) (some e') h = ground arith

module _ {D E : Type 0} (sfg : Group (AsyncCache D E) (Fetched D E)) (alone : Alone sfg) where
  -- With no call in flight, each call or tick that returns, on a cache with distinct keys, moves the
  -- life of each key as the abstract machine does, and keeps the keys distinct.
  pub life-step :
      (x : Call D E) (k : Text) (c c' : AsyncCache D E)
      → Distinct c.items
      → step sfg x c ≡ ok c'
      → (life k c' ≡ life_step k x (life k c)) × Distinct c'.items
  unfolding step
  life-step (set_default_call j v) k c c' d h =
      let (e, written, fresh) = set_default-eq-put j v c in
      ground (arith, life-put j k e c fresh, insert-Distinct j e c.items d)
  life-step (get_call opt j) k c c' d h =
      let (e, written, _, fresh) = get-eq-put sfg opt j c alone in
      ground (arith, life-put j k e c fresh, insert-Distinct j e c.items d)
  life-step (get_or_set_call opt j def) k c c' d h =
      let (e, written, _, _, fresh) = get_or_set-eq-put sfg opt j def c alone in
      ground (arith, life-put j k e c fresh, insert-Distinct j e c.items d)
  life-step dump_call k c c' d h = ground arith
  life-step (delete_if_call opt p) k c c' d h =
      ground (arith, life-delete_if opt p k c d, delete_if-Distinct opt p c d)
  life-step (expire_tick opt) k c c' d h =
      ground (arith, life-expire opt k c d, expire-Distinct opt c d)
  life-step (refresh_tick opt) k c c' d h = (
    life_of-expire (lookup k c'.items) (lookup k c.items) (expire-refresh opt k c c' h),
    refresh-Distinct opt c c' h d,
  )
