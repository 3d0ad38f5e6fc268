-- ===== src/AsyncCache/Refresh.antt =====
-- asynccache/asynccache.go: what refresh, DeleteIf and Dump do to the entries of the cache.
use mathlib.Core.Option
use utils_go.Base.{
  ℕ, ◌≡◌, refl, ◌∙◌, ap, Option, none, some, Bool, true, List, [], ◌∷◌, ◌++◌, map, ◌&&◌, ◌↔◌, inl,
  inr, if◌then◌else◌, ◌==◌, arith, Option-cases, Bool-cases, beq_refl, In, All,
}
use utils_go.Base.Text.{Text, text_eq}
use utils_go.Base.GoMap.{GoMap, Distinct, lookup}
use utils_go.Base.Outcome.{Outcome, ok, panic, >>=-eq-ok}
use utils_go.AsyncCache.Entry.{Any, Entry, load_err, store_value, store}
use utils_go.AsyncCache.Cache.{
  Event, error_handler, delete_handler, Options, Fetched, AsyncCache, Group, get, dump, deletions,
  changes, keep_error, refresh_entry, refresh_all, refresh,
}
use utils_go.AsyncCache.Reads.{answer, get_hit}

-- The answer for a cached entry after a refresh in which the fetcher returned `r`: a success
-- replaces value and error; a failure keeps the value, and keeps an error, but a new one.
unfoldable pub refreshed : {D E : Type 0} → Entry D E → Fetched D E → Fetched D E
refreshed e (v, none) = (v, none)
refreshed e (v, some x) = (e.val, elim (load_err e) [ none ↦ none | some _ ↦ some x ])

module _ {D E : Type 0} (opt : Options D E) where
  answer-refresh_entry :
      (k : Text) (e e' : Entry D E) (ev : List (Event D E))
      → refresh_entry opt k e ≡ ok (e', ev)
      → (answer e' ≡ refreshed e (opt.fetcher k)) × (e'.expire ≡ e.expire)
  unfolding refresh_entry refreshed
  answer-refresh_entry k e e' ev h = ground arith

  -- The parts of a pass over a map that begins with one entry.
  refresh_all-cons :
      (j : Text) (e : Entry D E) (m m' : GoMap Text (Entry D E)) (ev : List (Event D E))
      → refresh_all opt ((j, e) ∷ m) ≡ ok (m', ev)
      → (e' : Entry D E) × (here : List (Event D E)) × (rest : GoMap Text (Entry D E))
        × (later : List (Event D E)) × (refresh_entry opt j e ≡ ok (e', here))
        × (refresh_all opt m ≡ ok (rest, later))
        × (m' ≡ (j, e') ∷ rest)
  unfolding refresh_all
  refresh_all-cons j e m m' ev h =
      let ((e', here), entry, more) = >>=-eq-ok (refresh_entry opt j e) _ h in
      let ((rest, later), others, done) = >>=-eq-ok (refresh_all opt m) _ more in
      (e', here, rest, later, entry, others, ground arith)

  lookup-refresh_all-none :
      (k : Text) (m m' : GoMap Text (Entry D E)) (ev : List (Event D E))
      → refresh_all opt m ≡ ok (m', ev)
      → lookup k m ≡ none
      → lookup k m' ≡ none
  unfolding refresh_all lookup
  lookup-refresh_all-none k [] m' ev h miss = ground arith
  lookup-refresh_all-none k ((j, e) ∷ m) m' ev h miss =
      let (e', here, rest, later, _, others, done) = refresh_all-cons j e m m' ev h in
      ground (arith, lookup-refresh_all-none k m rest later others)

  lookup-refresh_all :
      (k : Text) (m m' : GoMap Text (Entry D E)) (ev : List (Event D E)) (e : Entry D E)
      → refresh_all opt m ≡ ok (m', ev)
      → lookup k m ≡ some e
      → (e' : Entry D E) × (lookup k m' ≡ some e')
        × (answer e' ≡ refreshed e (opt.fetcher k))
        × (e'.expire ≡ e.expire)
  unfolding lookup
  lookup-refresh_all k [] m' ev e h hit = cc
  lookup-refresh_all k ((j, x) ∷ m) m' ev e h hit =
      let (x', here, rest, later, entry, others, done) = refresh_all-cons j x m m' ev h in
      elim (Bool-cases (j == k)) [
        | inl same ↦ (
          x',
          ground arith,
          ground (arith, text_eq.equal_iff j k, answer-refresh_entry j x x' here entry),
          ground (arith, answer-refresh_entry j x x' here entry),
        )
        | inr other ↦
            let (e', found, says, aged) =
              lookup-refresh_all k m rest later e others (ground arith) in
            (e', ground arith, says, aged)
      ]

  refresh-items :
      (c c' : AsyncCache D E)
      → refresh opt c ≡ ok c'
      → (ev : List (Event D E)) × (refresh_all opt c.items ≡ ok (c'.items, ev))
  unfolding refresh
  refresh-items c c' h =
      let ((items, ev), pass, done) = >>=-eq-ok (refresh_all opt c.items) _ h in (ev, ground arith)

  -- After a refresh that returns, a Get of a key that was cached answers by the refreshed entry: a
  -- new value clears the error; a failed fetch keeps the value, and replaces an error by the new one.
  pub get-refresh :
      (sfg : Group (AsyncCache D E) (Fetched D E)) (opt' : Options D E) (k : Text)
      (c c' : AsyncCache D E) (e : Entry D E)
      → refresh opt c ≡ ok c'
      → lookup k c.items ≡ some e
      → (get sfg opt' k c').1 ≡ refreshed e (opt.fetcher k)
  get-refresh sfg opt' k c c' e h hit =
      let (ev, pass) = refresh-items c c' h in
      let (e', found, says, aged) = lookup-refresh_all k c.items c'.items ev e pass hit in
      get_hit sfg opt' k c' e' found ∙ says

  pub expire-refresh :
      (k : Text) (c c' : AsyncCache D E)
      → refresh opt c ≡ ok c'
      → Option.map (λ (e : Entry D E). e.expire) (lookup k c'.items)
        ≡ Option.map (λ (e : Entry D E). e.expire) (lookup k c.items)
  expire-refresh k c c' h =
      let (ev, pass) = refresh-items c c' h in
      elim (Option-cases (lookup k c.items)) [
        | inl miss ↦ ground (arith, lookup-refresh_all-none k c.items c'.items ev pass miss)
        | inr (e, hit) ↦
            let (e', found, _, aged) = lookup-refresh_all k c.items c'.items ev e pass hit in
            ground arith
      ]

-- Values of one dynamic type, or nil.
abbrev pub SameType : {D : Type 0} → ℕ → Option (Any D) → Type 0
SameType t none = Unit
SameType t (some x) = x.dyn_type ≡ t

abbrev pub Typed : {D E : Type 0} → ℕ → GoMap Text (Entry D E) → Type 0
Typed t m = All (λ (k, e). SameType t e.val) m

store_value_ok :
    {D : Type 0} (t : ℕ) (v : Option (Any D)) (x : Any D)
    → SameType t v
    → x.dyn_type ≡ t
    → store_value v x ≡ ok (some x)
unfolding store_value
store_value_ok t none x hv hx = refl
store_value_ok t (some y) x hv hx = ground arith

module _ {D E : Type 0} where
  store_ok :
      (t : ℕ) (e : Entry D E) (x : Option (Any D)) (err : Option E)
      → SameType t e.val
      → SameType t x
      → store e x err ≡ ok (record e { val = x; err = some err })
  unfolding store
  store_ok t e none err he hx = refl
  store_ok t e (some x) err he hx = rw (store_value_ok t e.val x he hx)

val-keep_error : {D E : Type 0} (e : Entry D E) (x : E) → (keep_error e x).val ≡ e.val
unfolding keep_error
val-keep_error e x = ground arith

module _ {D E : Type 0} (opt : Options D E) (t : ℕ)
    (typed : (k : Text) → SameType t (opt.fetcher k).0) where
  refresh_entry_ok :
      (k : Text) (e : Entry D E)
      → SameType t e.val
      → (e' : Entry D E) × (ev : List (Event D E)) × (refresh_entry opt k e ≡ ok (e', ev))
        × SameType t e'.val
  unfolding refresh_entry
  refresh_entry_ok k e h = elim (Option-cases (opt.fetcher k).1) [
    | inl fine ↦
        let v = (opt.fetcher k).0 in
        (
          record e { val = v; err = some none },
          changes opt k e v,
          rw (fine, refresh_entry, store_ok t e v none h (typed k)) refl,
          typed k,
        )
    | inr (x, failed) ↦ (
      keep_error e x,
      (if opt.has_error_handler then error_handler k x ∷ [] else []),
      rw (failed, refresh_entry) refl,
      rw (val-keep_error e x) h,
    )
  ]

  refresh_all_ok :
      (m : GoMap Text (Entry D E))
      → Typed t m
      → (m' : GoMap Text (Entry D E)) × (ev : List (Event D E)) × (refresh_all opt m ≡ ok (m', ev))
        × Typed t m'
  unfolding refresh_all
  refresh_all_ok [] h = ([], [], refl, tt)
  refresh_all_ok ((k, e) ∷ m) h =
      let (e', here, entry, te) = refresh_entry_ok k e h.0 in
      let (m', rest, others, tm) = refresh_all_ok m h.1 in
      ((k, e') ∷ m', here ++ rest, rw (entry, others) refl, (te, tm))

  -- Where every cached and every fetched value is nil or of one dynamic type, refresh does not panic,
  -- and keeps it so.
  pub refresh_ok :
      (c : AsyncCache D E)
      → Typed t c.items
      → (c' : AsyncCache D E) × (refresh opt c ≡ ok c') × Typed t c'.items
  unfolding refresh
  refresh_ok c h =
      let (items, ev, pass, ti) = refresh_all_ok c.items h in
      (record { items = items; events = c.events ++ ev }, rw pass refl, ti)

module _ {D E : Type 0} (opt : Options D E) (gone : Text → Entry D E → Bool) where
  deletions_sound :
      (m : GoMap Text (Entry D E)) (k : Text) (e : Entry D E)
      → Distinct m
      → In (delete_handler k e) (deletions opt gone m)
      → (lookup k m ≡ some e) × (gone k e ≡ true)
  unfolding deletions lookup
  deletions_sound [] k e d i = elim i [ ]
  deletions_sound ((j, x) ∷ m) k e d i = elim (Bool-cases (opt.has_delete_handler && gone j x)) [
    | inl called ↦ elim (rw called at i) [
      | inl same ↦ ground (arith, beq_refl k)
      | inr later ↦ ground (arith, text_eq.equal_iff j k, deletions_sound m k e d.1 later)
    ]
    | inr kept ↦ ground (arith, text_eq.equal_iff j k, deletions_sound m k e d.1 (rw kept at i))
  ]

  deletions_complete :
      (m : GoMap Text (Entry D E)) (k : Text) (e : Entry D E)
      → opt.has_delete_handler ≡ true
      → lookup k m ≡ some e
      → gone k e ≡ true
      → In (delete_handler k e) (deletions opt gone m)
  unfolding deletions lookup
  deletions_complete [] k e set hit g = cc
  deletions_complete ((j, x) ∷ m) k e set hit g = elim (Bool-cases (j == k)) [
    | inl same ↦
        let ej : j ≡ k = (text_eq.equal_iff j k).0 same in
        let ex : x ≡ e = ground arith in
        let called : gone j x ≡ true = cc in rw (set, called) (inl (cc))
    | inr other ↦ elim (Bool-cases (gone j x)) [
      | inl called ↦ rw (set, called) (inr (deletions_complete m k e set (ground arith) g))
      | inr kept ↦ rw (set, kept) (deletions_complete m k e set (ground arith) g)
    ]
  ]

  -- In a map with distinct keys, and with a DeleteHandler, the handler is called for an entry exactly
  -- when the map holds it under its key and the range deletes it.
  pub deletions_iff :
      (m : GoMap Text (Entry D E)) (k : Text) (e : Entry D E)
      → Distinct m
      → opt.has_delete_handler ≡ true
      → In (delete_handler k e) (deletions opt gone m) ↔ (lookup k m ≡ some e) × (gone k e ≡ true)
  deletions_iff m k e d set =
      (deletions_sound m k e d, λ (hit, g). deletions_complete m k e set hit g)

module _ {D E : Type 0} where
  lookup-values :
      (k : Text) (m : GoMap Text (Entry D E))
      → lookup k (map (λ (j, e). (j, e.val)) m) ≡ Option.map (λ (e : Entry D E). e.val) (lookup k m)
  unfolding lookup
  lookup-values k [] = refl
  lookup-values k ((j, e) ∷ m) = ground (arith, lookup-values k m)

  -- Dump holds, for each key, the value of the entry of that key, and nothing for other keys.
  pub lookup-dump :
      (c : AsyncCache D E) (k : Text)
      → lookup k (dump c) ≡ Option.map (λ (e : Entry D E). e.val) (lookup k c.items)
  unfolding dump
  lookup-dump c k = lookup-values k c.items

module _ {D E : Type 0} (opt : Options D E) where
  refresh_all-Distinct :
      (m m' : GoMap Text (Entry D E)) (ev : List (Event D E))
      → refresh_all opt m ≡ ok (m', ev)
      → Distinct m
      → Distinct m'
  unfolding refresh_all
  refresh_all-Distinct [] m' ev h d = rw (← ap keep h) d
    where
      keep : Outcome (GoMap Text (Entry D E) × List (Event D E)) → GoMap Text (Entry D E)
      keep (ok (x, _)) = x
      keep panic = []
  refresh_all-Distinct ((j, e) ∷ m) m' ev h d =
      let (e', here, rest, later, _, others, done) = refresh_all-cons opt j e m m' ev h in
      rw done (
        lookup-refresh_all-none opt j m rest later others d.0,
        refresh_all-Distinct m rest later others d.1,
      )

  pub refresh-Distinct :
      (c c' : AsyncCache D E) → refresh opt c ≡ ok c' → Distinct c.items → Distinct c'.items
  refresh-Distinct c c' h d =
      let (ev, pass) = refresh-items opt c c' h in refresh_all-Distinct c.items c'.items ev pass d
