-- ===== src/AsyncCache/Panics.antt =====
-- asynccache/asynccache.go: a sequence of calls does not panic where values have one dynamic type.
use utils_go.Base.{
  ℕ, ◌≡◌, refl, Option, none, some, Bool, List, [], ◌∷◌, ◌==◌, arith, Option-cases, Bool-cases, All,
  if◌then◌else◌, inl, inr,
}
use utils_go.Base.Text.{Text, text_eq}
use utils_go.Base.GoMap.{GoMap, lookup, insert, update_all}
use utils_go.Base.Outcome.{ok}
use utils_go.AsyncCache.Entry.{Any, Entry, load_err, touch, new_entry}
use utils_go.AsyncCache.Cache.{
  Options, Fetched, AsyncCache, Group, set_default, get_fill, get, get_or_set, delete_if,
  expire_entry, expire,
}
use utils_go.AsyncCache.Reads.{Alone, settled, get_or_set-eq-put}
use utils_go.AsyncCache.Refresh.{SameType, Typed, refresh_ok}
use utils_go.AsyncCache.Calls.{
  Call, set_default_call, get_call, get_or_set_call, dump_call, delete_if_call, expire_tick,
  refresh_tick, step, run,
}

-- The values that a call brings in have the dynamic type `t`, or are nil.
abbrev pub Brings : {D E : Type 0} → ℕ → Call D E → Type 0
Brings t (set_default_call j v) = SameType t v
Brings t (get_call opt j) = (k : Text) → SameType t (opt.fetcher k).0
Brings t (get_or_set_call opt j def) = ((k : Text) → SameType t (opt.fetcher k).0) × SameType t def
Brings t dump_call = Unit
Brings t (delete_if_call opt p) = Unit
Brings t (expire_tick opt) = Unit
Brings t (refresh_tick opt) = (k : Text) → SameType t (opt.fetcher k).0

module _ {D E : Type 0} (t : ℕ) where
  insert-Typed :
      (k : Text) (e : Entry D E) (m : GoMap Text (Entry D E))
      → SameType t e.val
      → Typed t m
      → Typed t (insert k e m)
  unfolding insert
  insert-Typed k e [] he hm = (he, tt)
  insert-Typed k e ((j, x) ∷ m) he hm = elim (Bool-cases (j == k)) [
    | inl same ↦ rw (same, insert) (he, hm.1)
    | inr other ↦ rw (other, insert) (hm.0, insert-Typed k e m he hm.1)
  ]

  lookup-Typed :
      (k : Text) (e : Entry D E) (m : GoMap Text (Entry D E))
      → Typed t m
      → lookup k m ≡ some e
      → SameType t e.val
  unfolding lookup
  lookup-Typed k e [] hm h = cc
  lookup-Typed k e ((j, x) ∷ m) hm h = elim (Bool-cases (j == k)) [
    | inl same ↦ let ex : x ≡ e = ground arith in rw (← ex) hm.0
    | inr other ↦ lookup-Typed k e m hm.1 (ground arith)
  ]

  update_all-Typed :
      (f : Text → Entry D E → Option (Entry D E)) (m : GoMap Text (Entry D E))
      → ((k : Text) (e e' : Entry D E) → f k e ≡ some e' → e'.val ≡ e.val)
      → Typed t m
      → Typed t (update_all f m)
  unfolding update_all
  update_all-Typed f [] keeps hm = tt
  update_all-Typed f ((j, x) ∷ m) keeps hm = elim (Option-cases (f j x)) [
    | inl gone ↦ rw (gone, update_all) (update_all-Typed f m keeps hm.1)
    | inr (x', kept) ↦
        rw (kept, update_all) (rw (keeps j x x' kept) hm.0, update_all-Typed f m keeps hm.1)
  ]

  set_default-Typed :
      (k : Text) (v : Option (Any D)) (c : AsyncCache D E)
      → SameType t v
      → Typed t c.items
      → Typed t (set_default k v c).0.items
  unfolding set_default
  set_default-Typed k v c hv h = elim (Option-cases (lookup k c.items)) [
    | inl miss ↦ rw (miss, set_default) (insert-Typed k (new_entry v none) c.items hv h)
    | inr (e, hit) ↦
        rw (hit, set_default) (insert-Typed k (touch e) c.items (lookup-Typed k e c.items h hit) h)
  ]

  delete_if-Typed :
      (opt : Options D E) (p : Text → Bool) (c : AsyncCache D E)
      → Typed t c.items
      → Typed t (delete_if opt p c).items
  unfolding delete_if
  delete_if-Typed opt p c h =
      update_all-Typed (λ k e. if p k then none else some e) c.items (λ k e e' q. ground arith) h

  expire-Typed :
      (opt : Options D E) (c : AsyncCache D E) → Typed t c.items → Typed t (expire opt c).items
  unfolding expire
  expire-Typed opt c h =
      update_all-Typed (λ k e. expire_entry e) c.items (λ k e e' q. ground arith) h

  settled-SameType :
      (o : Option (Entry D E)) (r : Fetched D E) (def : Option (Any D))
      → ((e : Entry D E) → o ≡ some e → SameType t e.val)
      → SameType t r.0
      → SameType t def
      → SameType t (settled o r def)
  unfolding settled
  settled-SameType none (v, none) def ho hr hd = hr
  settled-SameType none (v, some x) def ho hr hd = hd
  settled-SameType (some e) r def ho hr hd = elim (Option-cases (load_err e)) [
    | inl clean ↦ rw (clean, settled) (ho e refl)
    | inr (x, bad) ↦ rw (bad, settled) hd
  ]

module _ {D E : Type 0} (sfg : Group (AsyncCache D E) (Fetched D E)) (alone : Alone sfg)
    (t : ℕ) where
  get-Typed :
      (k : Text) (opt : Options D E) (c : AsyncCache D E)
      → ((j : Text) → SameType t (opt.fetcher j).0)
      → Typed t c.items
      → Typed t (get sfg opt k c).0.items
  unfolding get
  get-Typed k opt c hf h = elim (Option-cases (lookup k c.items)) [
    | inl miss ↦
        rw (miss, get, sfg.run_alone k (get_fill opt k) c (alone k))
          (insert-Typed t k (new_entry (opt.fetcher k).0 (opt.fetcher k).1) c.items (hf k) h)
    | inr (e, hit) ↦
        rw (hit, get) (insert-Typed t k (touch e) c.items (lookup-Typed t k e c.items h hit) h)
  ]

  get_or_set-Typed :
      (k : Text) (opt : Options D E) (def : Option (Any D)) (c : AsyncCache D E)
      → ((j : Text) → SameType t (opt.fetcher j).0)
      → SameType t def
      → Typed t c.items
      → Typed t (get_or_set sfg opt k def c).0.items
  get_or_set-Typed k opt def c hf hd h =
      let (e, written, _, value, _) = get_or_set-eq-put sfg opt k def c alone in
      let typed : SameType t e.val = rw value (
        settled-SameType t (lookup k c.items) (opt.fetcher k) def
          (λ x hit. lookup-Typed t k x c.items h hit) (hf k) hd) in
      rw written (insert-Typed t k e c.items typed h)

  step_ok :
      (x : Call D E) (c : AsyncCache D E)
      → Brings t x
      → Typed t c.items
      → (c' : AsyncCache D E) × (step sfg x c ≡ ok c') × Typed t c'.items
  unfolding step
  step_ok (set_default_call j v) c b h =
      ((set_default j v c).0, refl, set_default-Typed t j v c b h)
  step_ok (get_call opt j) c b h = ((get sfg opt j c).0, refl, get-Typed j opt c b h)
  step_ok (get_or_set_call opt j def) c b h =
      ((get_or_set sfg opt j def c).0, refl, get_or_set-Typed j opt def c b.0 b.1 h)
  step_ok dump_call c b h = (c, refl, h)
  step_ok (delete_if_call opt p) c b h = (delete_if opt p c, refl, delete_if-Typed t opt p c h)
  step_ok (expire_tick opt) c b h = (expire opt c, refl, expire-Typed t opt c h)
  step_ok (refresh_tick opt) c b h = refresh_ok opt t b c h

  -- With no call in flight, a sequence of calls and ticks that brings in values of one dynamic type, or
  -- nil, on a cache of such values, returns a cache of such values: none of the calls panics.
  pub run_ok :
      (xs : List (Call D E)) (c : AsyncCache D E)
      → All (Brings t) xs
      → Typed t c.items
      → (c' : AsyncCache D E) × (run sfg xs c ≡ ok c') × Typed t c'.items
  unfolding run
  run_ok [] c bs h = (c, refl, h)
  run_ok (x ∷ xs) c bs h =
      let (c1, one, h1) = step_ok x c bs.0 h in
      let (c', rest, h') = run_ok xs c1 bs.1 h1 in (c', rw one rest, h')
