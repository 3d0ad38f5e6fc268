-- ===== src/Base/GoMap.antt =====
-- Go maps (and sync.Map) as association lists with at most one entry for a key. The language leaves
-- the order of a `range` over a map open; here it is the order of the list.
use mathlib.Core.Path.{◌≡◌, refl}
use mathlib.Core.Bool.{false}
use mathlib.Core.Option
use mathlib.Core.Option.{Option, none, some}
use mathlib.Core.List.{List, [], ◌∷◌}
use native.Mathlib.Omega.{arith}
use utils_go.Base.Tests.{if◌then◌else◌, Comparable, ◌==◌, beq_refl}

abbrev pub GoMap : Type 0 → Type 0 → Type 0
GoMap K V = List (K × V)

module _ {K V : Type 0} ⦃e : Comparable K⦄ where
  -- v, ok := m[k]
  unfoldable pub lookup : K → GoMap K V → Option V
  lookup k [] = none
  lookup k ((j, v) ∷ m) = if j == k then some v else lookup k m

  -- m[k] = v
  unfoldable pub insert : K → V → GoMap K V → GoMap K V
  insert k v [] = (k, v) ∷ []
  insert k v ((j, w) ∷ m) = if j == k then (j, v) ∷ m else (j, w) ∷ insert k v m

  -- delete(m, k)
  unfoldable pub delete : K → GoMap K V → GoMap K V
  delete k [] = []
  delete k ((j, w) ∷ m) = if j == k then m else (j, w) ∷ delete k m

  -- A `range` whose body keeps, replaces or deletes the entry that it is at.
  unfoldable pub update_all : (K → V → Option V) → GoMap K V → GoMap K V
  update_all f [] = []
  update_all f ((j, v) ∷ m) =
      let rest = update_all f m in elim (f j v) [ none ↦ rest | some w ↦ (j, w) ∷ rest ]

  -- No key stands twice.
  abbrev pub Distinct : GoMap K V → Type 0
  Distinct [] = Unit
  Distinct ((k, v) ∷ m) = (lookup k m ≡ none) × Distinct m

module _ {K V : Type 0} ⦃e : Comparable K⦄ where
  pub lookup-insert :
      (written read : K) (v : V) (m : GoMap K V)
      → lookup read (insert written v m) ≡ (if written == read then some v else lookup read m)
  unfolding lookup insert
  lookup-insert written read v [] = refl
  lookup-insert written read v ((here, old) ∷ rest) = ground (
    arith,
    e.equal_iff written read,
    e.equal_iff here written,
    e.equal_iff here read,
    lookup-insert written read v rest,
  )

  pub lookup-insert_self : (k : K) (v : V) (m : GoMap K V) → lookup k (insert k v m) ≡ some v
  lookup-insert_self k v m = rw (lookup-insert k k v m, beq_refl k)

  pub lookup-insert_ne :
      (k j : K) (v : V) (m : GoMap K V) → (k == j) ≡ false → lookup j (insert k v m) ≡ lookup j m
  lookup-insert_ne k j v m h = rw (lookup-insert k j v m, h)

  pub insert-Distinct : (k : K) (v : V) (m : GoMap K V) → Distinct m → Distinct (insert k v m)
  unfolding lookup insert
  insert-Distinct k v [] d = (refl, tt)
  insert-Distinct k v ((j, w) ∷ m) d =
      ground
        (arith, lookup-insert k j v m, e.equal_iff j k, e.equal_iff k j, insert-Distinct k v m d.1)

  pub lookup-delete :
      (k j : K) (m : GoMap K V)
      → Distinct m
      → lookup j (delete k m) ≡ (if k == j then none else lookup j m)
  unfolding lookup delete
  lookup-delete k j [] d = ground arith
  lookup-delete k j ((i, w) ∷ m) d =
      ground (arith, e.equal_iff k j, e.equal_iff i k, e.equal_iff i j, lookup-delete k j m d.1)

  pub delete-Distinct : (k : K) (m : GoMap K V) → Distinct m → Distinct (delete k m)
  unfolding lookup delete
  delete-Distinct k [] d = d
  delete-Distinct k ((j, w) ∷ m) d =
      ground (arith, lookup-delete k j m d.1, e.equal_iff k j, delete-Distinct k m d.1)

  pub lookup-update_all_absent :
      (f : K → V → Option V) (k : K) (m : GoMap K V)
      → lookup k m ≡ none
      → lookup k (update_all f m) ≡ none
  unfolding lookup update_all
  lookup-update_all_absent f k [] h = refl
  lookup-update_all_absent f k ((j, v) ∷ m) h =
      ground (arith, lookup-update_all_absent f k m, e.equal_iff j k)

  -- A `range` that updates each entry of a map, seen at one key.
  pub lookup-update_all :
      (f : K → V → Option V) (k : K) (m : GoMap K V)
      → Distinct m
      → lookup k (update_all f m) ≡ Option.bind (lookup k m) (f k)
  unfolding lookup update_all Option.bind
  lookup-update_all f k [] d = refl
  lookup-update_all f k ((j, v) ∷ m) d =
      ground (arith, e.equal_iff j k, lookup-update_all_absent f k m, lookup-update_all f k m d.1)

  pub update_all-Distinct :
      (f : K → V → Option V) (m : GoMap K V) → Distinct m → Distinct (update_all f m)
  unfolding update_all
  update_all-Distinct f [] d = d
  update_all-Distinct f ((j, v) ∷ m) d =
      ground (arith, lookup-update_all_absent f j m d.0, update_all-Distinct f m d.1)
