-- ===== src/AsyncCache/Expiry.antt =====
-- asynccache/asynccache.go: when the expire ticks delete a key, over any sequence of calls and ticks.
use utils_go.Base.{
  ℕ, ◌+◌, ◌-◌, ◌≤◌, ◌≡◌, ◌≢◌, inl, inr, ◌∙◌, ap, none, Bool, true, false, List, [], ◌∷◌, ◌==◌,
  arith, Option-cases, All,
}
use utils_go.Base.Text.{Text, text_eq}
use utils_go.Base.GoMap.{Distinct, lookup}
use utils_go.Base.Outcome.{ok, >>=-eq-ok}
use utils_go.AsyncCache.Cache.{Fetched, AsyncCache, Group}
use utils_go.AsyncCache.Reads.{Alone}
use utils_go.AsyncCache.Calls.{
  Call, set_default_call, get_call, get_or_set_call, dump_call, delete_if_call, expire_tick,
  refresh_tick, Life, absent, used, idle, life_step, step, run, life, life-step,
}

-- The call touches or creates the key.
abbrev pub uses_key : {D E : Type 0} → Text → Call D E → Bool
uses_key k (set_default_call j v) = j == k
uses_key k (get_call opt j) = j == k
uses_key k (get_or_set_call opt j def) = j == k
uses_key k _ = false

abbrev pub deletes_key : {D E : Type 0} → Text → Call D E → Bool
deletes_key k (delete_if_call opt should_delete) = should_delete k
deletes_key k _ = false

abbrev pub is_tick : {D E : Type 0} → Call D E → ℕ
is_tick (expire_tick opt) = 1
is_tick _ = 0

abbrev pub ticks : {D E : Type 0} → List (Call D E) → ℕ
ticks [] = 0
ticks (x ∷ xs) = is_tick x + ticks xs

-- How many expire ticks a key survives.
abbrev rank : Life → ℕ
rank absent = 0
rank idle = 1
rank used = 2

rank-unused :
    {D E : Type 0} (k : Text) (x : Call D E) (l : Life)
    → uses_key k x ≡ false
    → rank (life_step k x l) ≤ rank l - is_tick x
rank-unused k (set_default_call j v) l h = ground arith
rank-unused k (get_call opt j) l h = ground arith
rank-unused k (get_or_set_call opt j def) l h = ground arith
rank-unused k dump_call l h = omega arith
rank-unused k (delete_if_call opt p) l h = ground arith
rank-unused k (expire_tick opt) l h = ground arith
rank-unused k (refresh_tick opt) l h = omega arith

rank-kept :
    {D E : Type 0} (k : Text) (x : Call D E) (l : Life)
    → deletes_key k x ≡ false
    → rank l - is_tick x ≤ rank (life_step k x l)
rank-kept k (set_default_call j v) l h = ground arith
rank-kept k (get_call opt j) l h = ground arith
rank-kept k (get_or_set_call opt j def) l h = ground arith
rank-kept k dump_call l h = omega arith
rank-kept k (delete_if_call opt p) l h = ground arith
rank-kept k (expire_tick opt) l h = ground arith
rank-kept k (refresh_tick opt) l h = omega arith

life_step-uses :
    {D E : Type 0} (k : Text) (x : Call D E) (l : Life)
    → uses_key k x ≡ true
    → life_step k x l ≡ used
life_step-uses k (set_default_call j v) l h = ground arith
life_step-uses k (get_call opt j) l h = ground arith
life_step-uses k (get_or_set_call opt j def) l h = ground arith
life_step-uses k _ l h = cc

rank-le_2 : (l : Life) → rank l ≤ 2
rank-le_2 l = ground arith

lookup-of_rank :
    {D E : Type 0} (k : Text) (c : AsyncCache D E)
    → (rank (life k c) ≡ 0 → lookup k c.items ≡ none)
      × (1 ≤ rank (life k c) → lookup k c.items ≢ none)
lookup-of_rank k c = elim (Option-cases (lookup k c.items)) [
  | inl miss ↦ (λ _. miss, λ h. ground arith)
  | inr (e, hit) ↦ (λ h. ground arith, λ h. ground arith)
]

module _ {D E : Type 0} (sfg : Group (AsyncCache D E) (Fetched D E)) (alone : Alone sfg)
    (k : Text) where
  run-unused :
      (xs : List (Call D E)) (c c' : AsyncCache D E)
      → Distinct c.items
      → All (λ x. uses_key k x ≡ false) xs
      → run sfg xs c ≡ ok c'
      → rank (life k c') ≤ rank (life k c) - ticks xs
  unfolding run
  run-unused [] c c' d unused h = ground arith
  run-unused (x ∷ xs) c c' d unused h =
      let (c1, one, rest) = >>=-eq-ok (step sfg x c) _ h in
      let (moved, d1) = life-step sfg alone x k c c1 d one in
      let shrunk : rank (life k c1) ≤ rank (life k c) - is_tick x =
        rw moved (rank-unused k x (life k c) unused.0) in
      omega (arith, run-unused xs c1 c' d1 unused.1 rest)

  run-kept :
      (xs : List (Call D E)) (c c' : AsyncCache D E)
      → Distinct c.items
      → All (λ x. deletes_key k x ≡ false) xs
      → run sfg xs c ≡ ok c'
      → rank (life k c) - ticks xs ≤ rank (life k c')
  unfolding run
  run-kept [] c c' d kept h = ground arith
  run-kept (x ∷ xs) c c' d kept h =
      let (c1, one, rest) = >>=-eq-ok (step sfg x c) _ h in
      let (moved, d1) = life-step sfg alone x k c c1 d one in
      let held : rank (life k c) - is_tick x ≤ rank (life k c1) =
        rw moved (rank-kept k x (life k c) kept.0) in
      omega (arith, run-kept xs c1 c' d1 kept.1 rest)

  -- On a cache with distinct keys and no call in flight, a key that none of the calls uses is gone
  -- after the calls, if they have at least two expire ticks, wherever these fall.
  pub idle_key_expires :
      (xs : List (Call D E)) (c c' : AsyncCache D E)
      → Distinct c.items
      → All (λ x. uses_key k x ≡ false) xs
      → 2 ≤ ticks xs
      → run sfg xs c ≡ ok c'
      → lookup k c'.items ≡ none
  idle_key_expires xs c c' d unused two h =
      (lookup-of_rank k c').0 (omega (arith, run-unused xs c c' d unused h, rank-le_2 (life k c)))

  -- On a cache with distinct keys and no call in flight, a key that a call uses is still there after
  -- further calls of which none deletes it and at most one is an expire tick.
  pub used_key_survives :
      (x : Call D E) (xs : List (Call D E)) (c c' : AsyncCache D E)
      → Distinct c.items
      → uses_key k x ≡ true
      → All (λ y. deletes_key k y ≡ false) xs
      → ticks xs ≤ 1
      → run sfg (x ∷ xs) c ≡ ok c'
      → lookup k c'.items ≢ none
  unfolding run
  used_key_survives x xs c c' d user kept few h =
      let (c1, one, rest) = >>=-eq-ok (step sfg x c) _ h in
      let (moved, d1) = life-step sfg alone x k c c1 d one in
      let fresh : life k c1 ≡ used = moved ∙ life_step-uses k x (life k c) user in
      (lookup-of_rank k c').1 (omega (arith, ap rank fresh, run-kept xs c1 c' d1 kept rest))
