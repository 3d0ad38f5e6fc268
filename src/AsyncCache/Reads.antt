-- ===== src/AsyncCache/Reads.antt =====
-- asynccache/asynccache.go: what a client reads after each operation of the cache.

use utils_go.Base.{◌≡◌, refl, sym, ap, ◌∙◌, Option, none, some, inl, inr, arith, Option-cases}
use utils_go.Base.Text.{Text, text_eq}
use utils_go.Base.GoMap.{lookup, lookup-insert_self}
use utils_go.AsyncCache.Entry.{Any, Entry, load_err, touch, new_entry}
use utils_go.AsyncCache.Cache.{
  Options, Fetched, AsyncCache, Group, put, set_default, get_fill, get, get_or_set_fill, get_or_set,
}

-- No call is in flight for any key.
abbrev pub Alone : {D E : Type 0} → Group (AsyncCache D E) (Fetched D E) → Type 0
Alone sfg = (k : Text) → sfg.in_flight k ≡ none

-- What Get answers for a cached entry.
abbrev pub answer : {D E : Type 0} → Entry D E → Fetched D E
answer e = (e.val, load_err e)

-- The value that GetOrSet returns, from what is cached and what the fetcher returns.
unfoldable pub settled :
    {D E : Type 0} → Option (Entry D E) → Fetched D E → Option (Any D) → Option (Any D)
settled none (v, none) def = v
settled none (v, some x) def = def
settled (some e) r def = elim (load_err e) [ none ↦ e.val | some _ ↦ def ]

module _ {D E : Type 0} (sfg : Group (AsyncCache D E) (Fetched D E)) where
  -- A hit answers with the cached value and error, whatever the fetcher or other calls do.
  pub get_hit :
      (opt : Options D E) (k : Text) (c : AsyncCache D E) (e : Entry D E)
      → lookup k c.items ≡ some e
      → (get sfg opt k c).1 ≡ answer e
  unfolding get
  get_hit opt k c e h = rw (h, get)

  -- Get writes one entry, which is marked as used and which it answers by.
  pub get-eq-put :
      (opt : Options D E) (k : Text) (c : AsyncCache D E)
      → Alone sfg
      → (e : Entry D E) × ((get sfg opt k c).0 ≡ put k e c)
        × ((get sfg opt k c).1 ≡ answer e)
        × (e.expire ≡ 0)
  unfolding get
  get-eq-put opt k c alone = elim (Option-cases (lookup k c.items)) [
    | inl miss ↦
        let filled : Entry D E = new_entry (opt.fetcher k).0 (opt.fetcher k).1 in
        (
          filled,
          rw (miss, get, sfg.run_alone k (get_fill opt k) c (alone k)) refl,
          rw (miss, get, sfg.run_alone k (get_fill opt k) c (alone k)) refl,
          refl,
        )
    | inr (e, hit) ↦ (touch e, rw (hit, get) refl, rw (hit, get) refl, refl)
  ]

  -- With no call in flight, a second Get of a key, by any options, answers as the first one did.
  pub get-get :
      (opt opt' : Options D E) (k : Text) (c : AsyncCache D E)
      → Alone sfg
      → (get sfg opt' k (get sfg opt k c).0).1 ≡ (get sfg opt k c).1
  get-get opt opt' k c alone =
      let (e, written, answered, _) = get-eq-put opt k c alone in
      get_hit opt' k (get sfg opt k c).0 e (rw written (lookup-insert_self k e c.items))
      ∙ sym answered

  pub get_or_set-eq-put :
      (opt : Options D E) (k : Text) (def : Option (Any D)) (c : AsyncCache D E)
      → Alone sfg
      → (e : Entry D E) × ((get_or_set sfg opt k def c).0 ≡ put k e c)
        × (answer e ≡ ((get_or_set sfg opt k def c).1, none))
        × (e.val ≡ settled (lookup k c.items) (opt.fetcher k) def)
        × (e.expire ≡ 0)
  unfolding get_or_set settled
  get_or_set-eq-put opt k def c alone = elim (Option-cases (lookup k c.items)) [
    | inl miss ↦
        let v : Option (Any D) = elim (opt.fetcher k).1 [
          | none ↦ (opt.fetcher k).0
          | some _ ↦ def
        ] in
        let filled : Entry D E = new_entry v none in
        let run = sfg.run_alone k (get_or_set_fill opt k def) c (alone k) in
        (
          filled,
          rw (miss, get_or_set, run) refl,
          rw (miss, get_or_set, run) refl,
          ground arith,
          refl,
        )
    | inr (e, hit) ↦ elim (Option-cases (load_err e)) [
      | inl clean ↦ (touch e, ground arith, ground arith, ground arith, refl)
      | inr (x, bad) ↦ (new_entry def none, ground arith, ground arith, ground arith, refl)
    ]
  ]

  -- With no call in flight, Get after GetOrSet answers the value that GetOrSet returned, with no
  -- error; and that is the settled value: the cached one if it has no error, the fetched one if the
  -- key is not cached and the fetch succeeds, and else the default.
  pub get-get_or_set :
      (opt opt' : Options D E) (k : Text) (def : Option (Any D)) (c : AsyncCache D E)
      → Alone sfg
      → ((get sfg opt' k (get_or_set sfg opt k def c).0).1 ≡ ((get_or_set sfg opt k def c).1, none))
        × ((get_or_set sfg opt k def c).1 ≡ settled (lookup k c.items) (opt.fetcher k) def)
  get-get_or_set opt opt' k def c alone =
      let (e, written, answered, value, _) = get_or_set-eq-put opt k def c alone in
      (
        get_hit opt' k (get_or_set sfg opt k def c).0 e
              (rw written (lookup-insert_self k e c.items))
            ∙ answered,
        cc,
      )

  -- A GetOrSet of a key that is not cached and for which a Get is in flight: it returns what the Get
  -- fetches, whatever the error and the default value, and a Get that follows it answers with what was
  -- fetched, its error included.
  pub get_or_set_joined :
      (opt opt' later : Options D E) (k : Text) (def : Option (Any D)) (c : AsyncCache D E)
      → lookup k c.items ≡ none
      → sfg.in_flight k ≡ some (get_fill opt' k)
      → ((get_or_set sfg opt k def c).1 ≡ (opt'.fetcher k).0)
        × ((get sfg later k (get_or_set sfg opt k def c).0).1 ≡ opt'.fetcher k)
  unfolding get_or_set get_fill
  get_or_set_joined opt opt' later k def c miss flying =
      let joined = sfg.run_joined k (get_fill opt' k) (get_or_set_fill opt k def) c flying in
      let stored : Entry D E = new_entry (opt'.fetcher k).0 (opt'.fetcher k).1 in
      let after : get_or_set sfg opt k def c ≡ (put k stored c, (opt'.fetcher k).0) =
        rw (miss, get_or_set, joined) refl in
      (
        ap (λ x. x.1) after,
        rw after (get_hit later k (put k stored c) stored (lookup-insert_self k stored c.items)),
      )

pub set_default-eq-put :
    {D E : Type 0} (k : Text) (v : Option (Any D)) (c : AsyncCache D E)
    → (e : Entry D E) × ((set_default k v c).0 ≡ put k e c) × (e.expire ≡ 0)
unfolding set_default
set_default-eq-put k v c = elim (Option-cases (lookup k c.items)) [
  | inl miss ↦ (new_entry v none, rw (miss, set_default) refl, refl)
  | inr (e, hit) ↦ (touch e, rw (hit, set_default) refl, refl)
]
