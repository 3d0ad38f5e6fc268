-- ===== src/AsyncCache/Entry.antt =====
-- asynccache/asynccache.go and atomic_error.go: a cache entry and its atomic fields.
use utils_go.Base.{ℕ, ◌≡◌, refl, Option, none, some, nat_beq, if◌then◌else◌}
use utils_go.Base.Outcome.{Outcome, ok, panic, ◌>>=◌}

-- A non-nil interface{}: the dynamic type and the data. nil is `none` of Option (Any D).
pub record Any (D : Type 0) : Type 0 where
  pub dyn_type : ℕ
  pub payload : D

-- `err` is unset, or holds an errorHolder around a possibly nil error.
pub record Entry (D E : Type 0) : Type 0 where
  pub val : Option (Any D)
  pub expire : ℕ
  pub err : Option (Option E)

-- atomic.Value.Store of a non-nil value panics on a value of another dynamic type.
unfoldable pub store_value : {D : Type 0} → Option (Any D) → Any D → Outcome (Option (Any D))
store_value none x = ok (some x)
store_value (some y) x = if nat_beq y.dyn_type x.dyn_type then ok (some x) else panic

module _ {D E : Type 0} where
  -- &entry{}
  abbrev pub zero_entry : Entry D E
  zero_entry = record { val = none; expire = 0; err = none }

  -- Error.Load
  abbrev pub load_err : Entry D E → Option E
  load_err e = elim e.err [ none ↦ none | some holder ↦ holder ]

  unfoldable pub store : Entry D E → Option (Any D) → Option E → Outcome (Entry D E)
  unfolding store_value
  store e none err = ok (record e { val = none; err = some err })
  store e (some x) err = do v ← store_value e.val x; ok (record e { val = v; err = some err })

  unfoldable pub touch : Entry D E → Entry D E
  touch e = record e { expire = 0 }

  -- ety := &entry{}; ety.Store(x, err)
  abbrev pub new_entry : Option (Any D) → Option E → Entry D E
  new_entry x err = record { val = x; expire = 0; err = some err }

  -- A new entry never panics on its first store.
  pub store-zero_entry :
      (x : Option (Any D)) (err : Option E) → store zero_entry x err ≡ ok (new_entry x err)
  unfolding store
  store-zero_entry none err = refl
  store-zero_entry (some x) err = refl
