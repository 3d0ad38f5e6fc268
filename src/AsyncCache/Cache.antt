-- ===== src/AsyncCache/Cache.antt =====
-- asynccache/asynccache.go: the operations of asyncCache, each as a function of the cache's state.
-- A method runs as one step. The handlers that the code starts by `go` are recorded in `events`.
-- The keys of the sync.Map are strings and its values are entries, since only this code stores into
-- it, so the branches for other types have no counterpart.
use utils_go.Base.{
  ◌≡◌, Option, none, some, Bool, true, false, List, [], ◌∷◌, ◌++◌, map, ◌&&◌, not, nat_beq,
  if◌then◌else◌,
}
use utils_go.Base.Text.{Text, text_eq}
use utils_go.Base.GoMap.{GoMap, lookup, insert, update_all}
use utils_go.Base.Outcome.{Outcome, ok, ◌>>=◌}
use utils_go.AsyncCache.Entry.{Any, Entry, load_err, store, touch, new_entry}

-- The arguments of a handler that was started.
pub data Event (D E : Type 0) : Type 0 where
  error_handler : Text → E → Event D E
  change_handler : Text → Option (Any D) → Option (Any D) → Event D E
  delete_handler : Text → Entry D E → Event D E

-- What Get and the Fetcher return.
abbrev pub Fetched : Type 0 → Type 0 → Type 0
Fetched D E = Option (Any D) × Option E

-- A handler is given by whether it is set; `fetcher` is what the calls of one operation return.
pub record Options (D E : Type 0) : Type 0 where
  pub fetcher : Text → Fetched D E
  pub has_error_handler : Bool
  pub has_change_handler : Bool
  pub has_delete_handler : Bool
  pub is_same : Option (Text → Option (Any D) → Option (Any D) → Bool)

pub record AsyncCache (D E : Type 0) : Type 0 where
  pub items : GoMap Text (Entry D E)
  pub events : List (Event D E)

-- singleflight.Group of golang.org/x/sync. Without a call in flight for a key, a call runs its function.
-- A call for a key that has one in flight waits until that one has run its function, and returns its
-- results. `in_flight` gives that function.
pub record Group (S R : Type 0) : Type 0 where
  pub in_flight : Text → Option (S → S × R)
  pub run : Text → (S → S × R) → S → S × R
  pub run_alone : (k : Text) (f : S → S × R) (s : S) → in_flight k ≡ none → run k f s ≡ f s
  pub run_joined :
      (k : Text) (flying f : S → S × R) (s : S) → in_flight k ≡ some flying → run k f s ≡ flying s

module _ {D E : Type 0} where
  -- c.data.Store(k, e)
  abbrev pub put : Text → Entry D E → AsyncCache D E → AsyncCache D E
  put k e c = record c { items = insert k e c.items }

  unfoldable pub set_default : Text → Option (Any D) → AsyncCache D E → AsyncCache D E × Bool
  unfolding touch
  set_default key val c = elim (lookup key c.items) [
    | some actual ↦ (put key (touch actual) c, true)
    | none ↦ (put key (new_entry val none) c, false)
  ]

  -- the function that Get hands to singleflight
  unfoldable pub get_fill : Options D E → Text → AsyncCache D E → AsyncCache D E × Fetched D E
  get_fill opt key c = let (v, e) = opt.fetcher key in (put key (new_entry v e) c, (v, e))

  unfoldable pub get :
      Group (AsyncCache D E) (Fetched D E)
      → Options D E
      → Text
      → AsyncCache D E
      → AsyncCache D E × Fetched D E
  unfolding get_fill touch
  get sfg opt key c = elim (lookup key c.items) [
    | some e ↦ (put key (touch e) c, (e.val, load_err e))
    | none ↦ sfg.run key (get_fill opt key) c
  ]

  -- the function that GetOrSet hands to singleflight
  unfoldable pub get_or_set_fill :
      Options D E → Text → Option (Any D) → AsyncCache D E → AsyncCache D E × Fetched D E
  get_or_set_fill opt key def c =
      let (fetched, e) = opt.fetcher key in
      let v : Option (Any D) = elim e [ none ↦ fetched | some _ ↦ def ] in
      (put key (new_entry v none) c, (v, none))

  unfoldable pub get_or_set :
      Group (AsyncCache D E) (Fetched D E)
      → Options D E
      → Text
      → Option (Any D)
      → AsyncCache D E
      → AsyncCache D E × Option (Any D)
  unfolding get_or_set_fill touch
  get_or_set sfg opt key def c = elim (lookup key c.items) [
    | some e ↦ elim (load_err e) [
      | some _ ↦ (put key (new_entry def none) c, def)
      | none ↦ (put key (touch e) c, e.val)
    ]
    | none ↦ let (c', r) = sfg.run key (get_or_set_fill opt key def) c in (c', r.0)
  ]

  unfoldable pub dump : AsyncCache D E → GoMap Text (Option (Any D))
  dump c = map (λ (k, e). (k, e.val)) c.items

  -- the calls of DeleteHandler of a range that deletes the entries with `gone`
  unfoldable pub deletions :
      Options D E → (Text → Entry D E → Bool) → GoMap Text (Entry D E) → List (Event D E)
  deletions opt gone [] = []
  deletions opt gone ((k, e) ∷ m) =
      let rest = deletions opt gone m in
      if opt.has_delete_handler && gone k e then delete_handler k e ∷ rest else rest

  unfoldable pub delete_if : Options D E → (Text → Bool) → AsyncCache D E → AsyncCache D E
  unfolding deletions
  delete_if opt should_delete c = record c {
    items = update_all (λ k e. if should_delete k then none else some e) c.items;
    events = c.events ++ deletions opt (λ k e. should_delete k) c.items;
  }

  -- atomic.CompareAndSwapInt32(&e.expire, 0, 1), and the deletion when it fails
  unfoldable pub expire_entry : Entry D E → Option (Entry D E)
  expire_entry e = if nat_beq e.expire 0 then some (record e { expire = 1 }) else none

  unfoldable pub expire : Options D E → AsyncCache D E → AsyncCache D E
  unfolding expire_entry deletions
  expire opt c = record c {
    items = update_all (λ k e. expire_entry e) c.items;
    events = c.events ++ deletions opt (λ k e. not (nat_beq e.expire 0)) c.items;
  }

  -- the call of ChangeHandler for a value that was fetched
  unfoldable pub changes : Options D E → Text → Entry D E → Option (Any D) → List (Event D E)
  changes opt k e new_val = elim opt.is_same [
    | none ↦ []
    | some is_same ↦
        if not (is_same k e.val new_val) && opt.has_change_handler
        then change_handler k e.val new_val ∷ []
        else []
  ]

  -- if e.err.Load() != nil { e.err.Store(err) }
  unfoldable pub keep_error : Entry D E → E → Entry D E
  keep_error e x = elim (load_err e) [ none ↦ e | some _ ↦ record e { err = some (some x) } ]

  -- the body of refresh's range
  unfoldable pub refresh_entry :
      Options D E → Text → Entry D E → Outcome (Entry D E × List (Event D E))
  unfolding store changes keep_error
  refresh_entry opt k e =
      let (new_val, err) = opt.fetcher k in
      elim err [
        | some x ↦
            ok (keep_error e x, (if opt.has_error_handler then error_handler k x ∷ [] else []))
        | none ↦ do e' ← store e new_val none; ok (e', changes opt k e new_val)
      ]

  unfoldable pub refresh_all :
      Options D E → GoMap Text (Entry D E) → Outcome (GoMap Text (Entry D E) × List (Event D E))
  unfolding refresh_entry
  refresh_all opt [] = ok ([], [])
  refresh_all opt ((k, e) ∷ m) = do
    (e', here) ← refresh_entry opt k e
    (m', rest) ← refresh_all opt m
    ok ((k, e') ∷ m', here ++ rest)

  -- A panic in the refresh goroutine ends the process.
  unfoldable pub refresh : Options D E → AsyncCache D E → Outcome (AsyncCache D E)
  unfolding refresh_all
  refresh opt c = do
    (items, events) ← refresh_all opt c.items
    ok (record { items = items; events = c.events ++ events })
